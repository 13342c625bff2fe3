-- ===== src/Examples/Sessions.antt =====
-- Sessions at small inputs.
use yuviz.Base.{true, false, none, some, List, [], ◌∷◌, ◌++◌, codes, ◌≡◌, refl}
use yuviz.Fsm.{idle, listening, speaking, transferring, ConversationFsm}
use yuviz.Session.Shapes.{
  HandlerResponse, transfer_success, on_session_end, ConversationSession, new_session,
}
use yuviz.Session.{begin_speech, begin_close}
use yuviz.Session.Steps.{
  Op, ready, audio, audio_is_heard, speech_begins, speech_goes_on, speech_ends, transfer_starts,
  transfer_succeeds, apply_all,
}
use yuviz.Session.Moves.{Moves, published_changes}
use yuviz.Session.Turns.{
  Responses, speech_turn, speech_turn_listens, recovery_turn, recovery_turn_recovers,
}
use yuviz.Base.{String}
use yuviz.Session.Outcomes.{ReportedAs, close_reports}

abbrev response : HandlerResponse
response = record {
  stt_text = "hello";
  stt_confidence = 9;
  tts_payloads = codes "pcm" ∷ [];
  agent_text = "";
}

-- a turn, and then a transfer that succeeds
abbrev ops : List Op
ops =
    ready 1 2
    ∷ audio (codes "pcm")
    ∷ audio_is_heard response
    ∷ speech_begins 3 4 5 6
    ∷ speech_goes_on 7 response true
    ∷ speech_ends 8 9
    ∷ transfer_starts 10 "cold" "sales" "asked" "t1"
    ∷ transfer_succeeds 11 "sales" "t1"
    ∷ []

published_changes_example :
    Moves idle
      (apply_all ops (new_session 0 false)).published
      (apply_all ops (new_session 0 false)).fsm.state
published_changes_example = published_changes 0 false ops

-- a session that is in a state
abbrev session_in : ConversationFsm → ConversationSession
session_in m = record {
  fsm = m;
  text_only = false;
  tts_seq = 0;
  audio_buffer = codes "pcm";
  transfer_outcome = none;
  published = [];
  calls = [];
}

abbrev listens : ConversationSession
listens = session_in (record { state = listening; state_entered = 0; transition_count = 2 })

abbrev transfers : ConversationSession
transfers = session_in (record { state = transferring; state_entered = 0; transition_count = 3 })

abbrev responses : Responses
responses = (7, response) ∷ (8, response) ∷ []

speech_turn_listens_example :
    ((begin_speech 3 4 5 6 listens).1 ≡ some (codes "pcm"))
    × ((speech_turn 3 4 5 6 responses 9 10 listens).fsm.state ≡ listening)
speech_turn_listens_example = speech_turn_listens 3 4 5 6 responses 9 10 listens refl

recovery_turn_recovers_example :
    (recovery_turn 3 "sales" "busy" "t1" responses 9 10 transfers).fsm.state ≡ speaking
recovery_turn_recovers_example =
    recovery_turn_recovers 3 "sales" "busy" "t1" responses 9 10 transfers refl

close_reports_example :
    (reported : String) × ((begin_close 12 13 "stream_ended"
        (apply_all ops (new_session 0 false))).1
      ≡ reported)
    × ((begin_close 12 13 "stream_ended" (apply_all ops (new_session 0 false))).0.calls
        ≡ (apply_all ops (new_session 0 false)).calls
          ++ on_session_end reported (some transfer_success) ∷ [])
    × ReportedAs (some transfer_success) "stream_ended" reported
close_reports_example = close_reports 0 false ops 12 13 "stream_ended"
