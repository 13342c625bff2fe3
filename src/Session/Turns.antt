-- ===== src/Session/Turns.antt =====
-- Turns of services/conversation/session.py that nothing interrupts: each gives the session back.
use yuviz.Base.{
  ℕ, ◌+◌, Bool, true, false, ◌&&◌, ◌||◌, String, string_eq, some, List, [], ◌∷◌, length, any, ◌==◌,
  if◌then◌else◌, ◌≡◌, refl, ap, ◌∙◌, arith, Bool-cases, inl, inr,
}
use yuviz.Fsm.{
  CallFsmState, listening, recognizing, speaking, transferring, recovering, Event, step,
}
use yuviz.Session.Shapes.{HandlerResponse, ConversationSession}
use yuviz.Session.{
  drive, begin_speech, hear_text, has_audio, speech_response, is_mid_turn, end_speech,
  fail_transfer, recovery_response, end_recovery,
}

-- the responses of a handler, each with the reading of the clock
abbrev pub Responses : Type 0
Responses = List (ℕ × HandlerResponse)

-- the loop of `speech_ended`
abbrev pub speech_responses : Responses → Bool → ConversationSession → ConversationSession
speech_responses [] first_tts s = s
speech_responses ((now, r) ∷ rs) first_tts s =
    let (after, first) = speech_response now r first_tts s in speech_responses rs first after

-- `speech_ended`
abbrev pub speech_turn :
    ℕ → ℕ → ℕ → ℕ → Responses → ℕ → ℕ → ConversationSession → ConversationSession
speech_turn now later ms db rs at end s =
    end_speech at end (speech_responses rs true (begin_speech now later ms db s).0)

-- the loop of `on_transfer_failed`
abbrev pub recovery_responses : Responses → Bool → ConversationSession → ConversationSession × Bool
recovery_responses [] any_audio s = (s, any_audio)
recovery_responses ((now, r) ∷ rs) any_audio s =
    let (after, heard) = recovery_response now r any_audio s in recovery_responses rs heard after

-- `on_transfer_failed`
abbrev pub recovery_turn :
    ℕ → String → String → String → Responses → ℕ → ℕ → ConversationSession → ConversationSession
recovery_turn now destination reason transfer_id rs at end s =
    let (after, any_audio) = recovery_responses rs false (fail_transfer now reason s) in
    end_recovery at end destination reason transfer_id any_audio after

begun_speech :
    (now later ms db : ℕ) (s : ConversationSession)
    → s.fsm.state ≡ listening
    → (begin_speech now later ms db s).0.fsm.state ≡ recognizing
unfolding begin_speech drive step
begun_speech now later ms db s h = ground (arith, h)

given_audio :
    (now later ms db : ℕ) (s : ConversationSession)
    → s.fsm.state ≡ listening
    → (begin_speech now later ms db s).1 ≡ some s.audio_buffer
unfolding begin_speech
given_audio now later ms db s h = ground (arith, h)

stt_final-IsMidTurn :
    (now : ℕ) (text : String) (confidence : ℕ) (s : ConversationSession)
    → is_mid_turn s.fsm.state ≡ true
    → is_mid_turn (drive now (Event.stt_final text confidence) s).fsm.state ≡ true
unfolding drive step
stt_final-IsMidTurn now text confidence s h = ground (arith, h)

audio-IsMidTurn :
    (now : ℕ) (s : ConversationSession)
    → is_mid_turn s.fsm.state ≡ true
    → is_mid_turn (drive now Event.first_audio_chunk (drive now Event.text_ready s)).fsm.state
      ≡ true
unfolding drive step
audio-IsMidTurn now s h = ground (arith, h)

called_off :
    (now later : ℕ) (s : ConversationSession)
    → is_mid_turn s.fsm.state ≡ true
    → (drive now (Event.cancel later) s).fsm.state ≡ listening
unfolding drive step
called_off now later s h = ground (arith, h)

speech_response-IsMidTurn :
    (now : ℕ) (r : HandlerResponse) (first_tts : Bool) (s : ConversationSession)
    → is_mid_turn s.fsm.state ≡ true
    → is_mid_turn (speech_response now r first_tts s).0.fsm.state ≡ true
unfolding speech_response
speech_response-IsMidTurn now r first_tts s h =
    let counted = record s { tts_seq = s.tts_seq + length r.tts_payloads } in
    let heard : is_mid_turn (hear_text now r counted).fsm.state ≡ true =
      elim (Bool-cases (r.stt_text == "")) [
        | inl silent ↦ rw (hear_text, silent) h
        | inr spoken ↦
            rw (hear_text, spoken) (stt_final-IsMidTurn now r.stt_text r.stt_confidence counted h)
      ] in
    elim (Bool-cases (has_audio r && first_tts)) [
      | inl first ↦ rw first (audio-IsMidTurn now (hear_text now r counted) heard)
      | inr other ↦ rw other heard
    ]

speech_responses-IsMidTurn :
    (rs : Responses) (first_tts : Bool) (s : ConversationSession)
    → is_mid_turn s.fsm.state ≡ true
    → is_mid_turn (speech_responses rs first_tts s).fsm.state ≡ true
speech_responses-IsMidTurn [] first_tts s h = h
speech_responses-IsMidTurn ((now, r) ∷ rs) first_tts s h =
    let (after, first) = speech_response now r first_tts s in
    speech_responses-IsMidTurn rs first after (speech_response-IsMidTurn now r first_tts s h)

-- When the caller has spoken to a session that listens, the handler gets the audio that was kept; and
-- whatever it answers, or if it does not, the session listens again at the end of the turn, provided that
-- nothing else reaches the session in between and that the handler does not raise.
pub speech_turn_listens :
    (now later ms db : ℕ) (rs : Responses) (at end : ℕ) (s : ConversationSession)
    → s.fsm.state ≡ listening
    → ((begin_speech now later ms db s).1 ≡ some s.audio_buffer)
      × ((speech_turn now later ms db rs at end s).fsm.state ≡ listening)
unfolding end_speech
speech_turn_listens now later ms db rs at end s h =
    let mid =
      speech_responses-IsMidTurn rs true (begin_speech now later ms db s).0
        (ap is_mid_turn (begun_speech now later ms db s h)) in
    (
      given_audio now later ms db s h,
      rw mid (called_off at end (speech_responses rs true (begin_speech now later ms db s).0) mid),
    )

-- what the state is once the handler has answered with audio, or has not yet
abbrev recovery_state : Bool → CallFsmState
recovery_state any_audio = if any_audio then speaking else recovering

failed_state :
    (now : ℕ) (reason : String) (s : ConversationSession)
    → s.fsm.state ≡ transferring
    → (fail_transfer now reason s).fsm.state ≡ recovering
unfolding fail_transfer drive step
failed_state now reason s h = ground (arith, h)

ready_state :
    (now : ℕ) (s : ConversationSession)
    → s.fsm.state ≡ recovering
    → (drive now Event.recovery_response_ready s).fsm.state ≡ speaking
unfolding drive step
ready_state now s h = ground (arith, h)

played_state :
    (now : ℕ) (s : ConversationSession)
    → s.fsm.state ≡ speaking
    → (drive now (Event.playback_finished false) s).fsm.state ≡ listening
unfolding drive step
played_state now s h = ground (arith, h)

abbrev any_has_audio : Responses → Bool
any_has_audio rs = any (λ r. has_audio r.1) rs

or_assoc : (a b c : Bool) → ((a || b) || c) ≡ (a || (b || c))
or_assoc a b c = ground arith

recovery_response_state :
    (now : ℕ) (r : HandlerResponse) (any_audio : Bool) (s : ConversationSession)
    → s.fsm.state ≡ recovery_state any_audio
    → ((recovery_response now r any_audio s).0.fsm.state
        ≡ recovery_state (recovery_response now r any_audio s).1)
      × ((recovery_response now r any_audio s).1 ≡ (any_audio || has_audio r))
unfolding recovery_response
recovery_response_state now r true s h = elim (Bool-cases (has_audio r)) [
  | inl audible ↦ rw audible (h, refl)
  | inr silent ↦ rw silent (h, refl)
]
recovery_response_state now r false s h = elim (Bool-cases (has_audio r)) [
  | inl audible ↦ rw audible (ready_state now s h, refl)
  | inr silent ↦ rw silent (h, refl)
]

recovery_responses_state :
    (rs : Responses) (any_audio : Bool) (s : ConversationSession)
    → s.fsm.state ≡ recovery_state any_audio
    → ((recovery_responses rs any_audio s).0.fsm.state
        ≡ recovery_state (any_audio || any_has_audio rs))
      × ((recovery_responses rs any_audio s).1 ≡ (any_audio || any_has_audio rs))
recovery_responses_state [] true s h = (h, refl)
recovery_responses_state [] false s h = (h, refl)
recovery_responses_state ((now, r) ∷ rs) any_audio s h =
    let (after, heard) = recovery_response now r any_audio s in
    let (kept, now_heard) = recovery_response_state now r any_audio s h in
    let (state, is_heard) = recovery_responses_state rs heard after kept in
    let same : (heard || any_has_audio rs) ≡ (any_audio || (has_audio r || any_has_audio rs)) =
      ap (λ (b : Bool). b || any_has_audio rs) now_heard
      ∙ or_assoc any_audio (has_audio r) (any_has_audio rs) in
    (state ∙ ap recovery_state same, is_heard ∙ same)

-- When a transfer fails, and nothing comes between, the session speaks to the caller again if the
-- handler answers with audio, and listens if it does not: it never stays where only a transfer leads on.
pub recovery_turn_recovers :
    (now : ℕ) (destination reason transfer_id : String) (rs : Responses) (at end : ℕ)
    (s : ConversationSession)
    → s.fsm.state ≡ transferring
    → (recovery_turn now destination reason transfer_id rs at end s).fsm.state
      ≡ (if any_has_audio rs then speaking else listening)
unfolding end_recovery
recovery_turn_recovers now destination reason transfer_id rs at end s h =
    let (state, heard) =
      recovery_responses_state rs false (fail_transfer now reason s)
        (failed_state now reason s h) in
    let after = (recovery_responses rs false (fail_transfer now reason s)).0 in
    elim (Bool-cases (any_has_audio rs)) [
      | inl audible ↦ rw (audible, heard ∙ audible) (state ∙ ap recovery_state audible)
      | inr silent ↦
          rw (silent, heard ∙ silent)
            (played_state end (drive at Event.recovery_response_ready after)
              (ready_state at after (state ∙ ap recovery_state silent)))
    ]
