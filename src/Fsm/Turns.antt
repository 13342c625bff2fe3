-- ===== src/Fsm/Turns.antt =====
-- Whole turns of a conversation in fsm.py: speech, answer, interruption, and a failed transfer.
use yuviz.Base.{ℕ, ◌+◌, ◌≡◌, ◌⊎◌, true, false, String, List, [], ◌∷◌, arith}
use yuviz.Fsm.{
  listening, recognizing, thinking, synthesizing, speaking, transferring, FsmHandlers,
  ConversationFsm, Event, text_ready, first_audio_chunk, speech_started, speech_ended, stt_final,
  playback_finished, cancel, transfer_failed, recovery_response_ready, can_accept_audio, step, run,
}

-- The events of a turn that is not interrupted, at readings `t₁` to `t₆`.
abbrev pub turn : ℕ → ℕ → ℕ → ℕ → ℕ → ℕ → String → List (ℕ × Event)
turn a b c d e f text =
    (a, speech_started 0)
    ∷ (b, speech_ended 0 0)
    ∷ (c, stt_final text 1)
    ∷ (d, text_ready)
    ∷ (e, first_audio_chunk)
    ∷ (f, playback_finished false)
    ∷ []

-- A turn that nobody interrupts takes a listening machine back to LISTENING in five transitions,
-- at the reading of the playback's end.
pub turn-listening :
    (h : FsmHandlers) (a b c d e f : ℕ) (text : String) (m : ConversationFsm)
    → m.state ≡ listening
    → (run h (turn a b c d e f text) m).0
      ≡ record { state = listening; state_entered = f; transition_count = m.transition_count + 5 }
unfolding run step
turn-listening h a b c d e f text m l = ground arith

-- `on_cancel` brings each state of a turn in progress back to LISTENING, and leaves the machine
-- as it is in every other state.
pub cancel-listening :
    (h : FsmHandlers) (now later : ℕ) (m : ConversationFsm)
    → let m' = (step h now (cancel later) m).0 in
      ((m.state ≡ recognizing)
          ⊎ (m.state ≡ thinking)
          ⊎ (m.state ≡ synthesizing)
          ⊎ (m.state ≡ speaking)
        → m'.state ≡ listening)
      × ((m'.state ≡ listening) ⊎ (m' ≡ m))
unfolding step
cancel-listening h now later m = (λ busy. ground arith, ground arith)

-- After a failed transfer the conversation goes on: the apology's playback ends in LISTENING,
-- where the machine accepts audio.
pub transfer_failed_recovers :
    (h : FsmHandlers) (a b c : ℕ) (reason : String) (m : ConversationFsm)
    → m.state ≡ transferring
    → let m' =
        (run h
          ((a, transfer_failed reason)
            ∷ (b, recovery_response_ready)
            ∷ (c, playback_finished false)
            ∷ [])
          m).0 in
      (m'.state ≡ listening) × (can_accept_audio m'.state ≡ true)
unfolding run step can_accept_audio
transfer_failed_recovers h a b c reason m t = ground arith
