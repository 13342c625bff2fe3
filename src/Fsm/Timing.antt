-- ===== src/Fsm/Timing.antt =====
-- The durations that fsm.py reports.
use yuviz.Base.{ℕ, ◌+◌, ◌≤◌, ◌≡◌, true, List, [], ◌∷◌, ◌++◌, arith}
use yuviz.Fsm.{FsmHandlers, Callback, state_changed, ConversationFsm, Event, cancel, step, run}

-- The sum of the reported durations.
abbrev pub time_reported : List Callback → ℕ
time_reported [] = 0
time_reported (state_changed a b trigger ms ∷ cs) = ms + time_reported cs
time_reported (_ ∷ cs) = time_reported cs

time_reported-append :
    (cs ds : List Callback) → time_reported (cs ++ ds) ≡ time_reported cs + time_reported ds
time_reported-append [] ds = omega arith
time_reported-append (state_changed a b trigger ms ∷ cs) ds =
    omega (arith, time_reported-append cs ds)
time_reported-append (_ ∷ cs) ds = time_reported-append cs ds

-- The last reading that an event makes, for an event that starts at `now`.
abbrev pub last_reading : ℕ → Event → ℕ
last_reading now (cancel later) = later
last_reading now _ = now

-- The clock never runs back over the events, from a reading `t` on.
abbrev pub IsMonotone : ℕ → List (ℕ × Event) → Type 0
IsMonotone t [] = Unit {0}
IsMonotone t ((now, e) ∷ es) =
    (t ≤ now) × (now ≤ last_reading now e) × IsMonotone (last_reading now e) es

module _ (h : FsmHandlers) (heard : h.on_state_changed ≡ true) where
  step-time_reported :
      (now : ℕ) (e : Event) (m : ConversationFsm)
      → m.state_entered ≤ now
      → now ≤ last_reading now e
      → let (m', out) = step h now e m in
        (m'.state_entered ≡ m.state_entered + time_reported out)
        × (m'.state_entered ≤ last_reading now e)
  unfolding step
  step-time_reported now e m p q = ground arith

  -- The same from any reading that is not before the entry of the state.
  run_from-time_reported :
      (es : List (ℕ × Event)) (m : ConversationFsm) (t : ℕ)
      → m.state_entered ≤ t
      → IsMonotone t es
      → (run h es m).0.state_entered ≡ m.state_entered + time_reported (run h es m).1
  unfolding run
  run_from-time_reported [] m t p c = omega arith
  run_from-time_reported ((now, e) ∷ es) m t p c =
      let (m', out) = step h now e m in
      let (sum, early) = step-time_reported now e m (omega arith) c.1 in
      omega (
        arith,
        sum,
        run_from-time_reported es m' (last_reading now e) early c.2,
        time_reported-append out (run h es m').1,
      )

  -- With `on_state_changed` set and a clock that never runs back, the durations reported by a run
  -- add up to the time between the entries of its first and last state: no time is lost or counted
  -- twice.
  pub run-time_reported :
      (es : List (ℕ × Event)) (m : ConversationFsm)
      → IsMonotone m.state_entered es
      → (run h es m).0.state_entered ≡ m.state_entered + time_reported (run h es m).1
  run-time_reported es m c = run_from-time_reported es m m.state_entered (omega arith) c
