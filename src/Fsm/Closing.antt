-- ===== src/Fsm/Closing.antt =====
-- Teardown and terminal states of fsm.py.
use yuviz.Base.{ℕ, ◌≡◌, ◌≢◌, refl, ◌⊎◌, Bool, true, false, String, List, [], ◌∷◌, ◌++◌, ◌-◌, arith}
use yuviz.Fsm.{
  CallFsmState, idle, connecting, barge_in, transferring, recovering, finalizing, closing, closed,
  is_valid, is_active, is_terminal, FsmHandlers, ConversationFsm, Event, Callback,
  transfer_requested, state_changed, session_close, close_acknowledged, timeout, step, run, fire,
}

step_of_closed :
    (h : FsmHandlers) (now : ℕ) (e : Event) (m : ConversationFsm)
    → is_terminal m.state ≡ true
    → step h now e m ≡ (m, [])
unfolding step is_terminal
step_of_closed h now e m c = ground arith

-- A machine in the terminal state stays as it is under any events, and calls no handler.
pub terminal_absorbs :
    (h : FsmHandlers) (es : List (ℕ × Event)) (m : ConversationFsm)
    → is_terminal m.state ≡ true
    → run h es m ≡ (m, [])
unfolding run
terminal_absorbs h [] m c = refl
terminal_absorbs h ((now, e) ∷ es) m c = rw (step_of_closed h now e m c) (terminal_absorbs h es m c)

-- Once closing, an event leaves the machine closing or closes it, and only an acknowledgement or
-- the closing timer closes it.
pub closing_only_closes :
    (h : FsmHandlers) (now : ℕ) (e : Event) (m : ConversationFsm)
    → m.state ≡ closing
    → (step h now e m ≡ (m, []))
      ⊎ (((step h now e m).0.state ≡ closed) × ((e ≡ close_acknowledged) ⊎ (e ≡ timeout closing)))
unfolding step
closing_only_closes h now e m c = ground arith

-- From every state but IDLE, a hang-up and its acknowledgement close the machine, whatever the
-- reason, the clock and the handlers.
pub hangup_closes :
    (h : FsmHandlers) (now later : ℕ) (reason : String) (m : ConversationFsm)
    → m.state ≢ idle
    → (run h ((now, session_close reason) ∷ (later, close_acknowledged) ∷ []) m).0.state ≡ closed
unfolding run step
hangup_closes h now later reason m live = ground arith

-- A hang-up before `on_session_start` calls the close handler and leaves the machine in IDLE.
pub hangup_of_idle :
    (h : FsmHandlers) (now : ℕ) (reason : String) (m : ConversationFsm)
    → m.state ≡ idle
    → step h now (session_close reason) m
      ≡ (m, fire h.on_session_close (Callback.session_close reason))
unfolding step
hangup_of_idle h now reason m i = ground arith

-- A transfer request in an active state calls its handler in every case, and moves the machine to
-- TRANSFERRING exactly when the table has that entry; otherwise the machine is unchanged.
pub transfer_requested_cases :
    (h : FsmHandlers) (now : ℕ) (queue reason : String) (m : ConversationFsm)
    → is_active m.state ≡ true
    → let (m', out) = step h now (Event.transfer_requested queue reason) m in
      ((is_valid m.state transferring ≡ true)
        × (m'.state ≡ transferring)
        × (out
            ≡ fire h.on_transfer_requested (transfer_requested queue reason)
              ++ fire h.on_state_changed (
                  state_changed m.state transferring "transfer_requested" (now - m.state_entered))))
      ⊎ ((is_valid m.state transferring ≡ false)
          × (m' ≡ m)
          × (out ≡ fire h.on_transfer_requested (transfer_requested queue reason)))
unfolding step
transfer_requested_cases h now queue reason m a = ground arith

-- The active states without that entry.
abbrev pub Stranded : CallFsmState → Type 0
Stranded s =
    (s ≡ connecting) ⊎ (s ≡ barge_in) ⊎ (s ≡ transferring) ⊎ (s ≡ recovering) ⊎ (s ≡ finalizing)

-- In CONNECTING, BARGE_IN, TRANSFERRING, RECOVERING and FINALIZING a transfer request reaches its
-- handler and the machine does not move, although these states count as active.
pub transfer_requested-Stranded :
    (h : FsmHandlers) (now : ℕ) (queue reason : String) (m : ConversationFsm)
    → Stranded m.state
    → (is_active m.state ≡ true)
      × (step h now (Event.transfer_requested queue reason) m
          ≡ (m, fire h.on_transfer_requested (transfer_requested queue reason)))
unfolding step is_active
transfer_requested-Stranded h now queue reason m s = ground arith

-- The states that `on_timeout` has a branch for.
abbrev pub has_timer : CallFsmState → Bool
has_timer idle = false
has_timer recovering = false
has_timer finalizing = false
has_timer closed = false
has_timer _ = true

-- A stale timer changes nothing; the timer of the machine's own state moves it on exactly where
-- `on_timeout` has a branch.
pub timeout_moves :
    (h : FsmHandlers) (now : ℕ) (t : CallFsmState) (m : ConversationFsm)
    → (m.state ≢ t → step h now (timeout t) m ≡ (m, []))
      × (m.state ≡ t → has_timer t ≡ true → (step h now (timeout t) m).0.state ≢ t)
      × (m.state ≡ t → has_timer t ≡ false → step h now (timeout t) m ≡ (m, []))
unfolding step
timeout_moves h now t m =
    (λ stale. ground arith, λ own timed. ground arith, λ own untimed. ground arith)
