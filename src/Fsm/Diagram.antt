-- ===== src/Fsm/Diagram.antt =====
-- The callbacks of fsm.py against its transition table.
use yuviz.Base.{ℕ, suc, ◌+◌, ◌≡◌, refl, true, List, [], ◌∷◌, ◌++◌, arith}
use yuviz.Fsm.{
  CallFsmState, is_valid, FsmHandlers, Callback, state_changed, ConversationFsm, Event, step, run,
}

-- Read in order, the reported transitions lead from `s` to `t`, each by an entry of the table.
abbrev pub Walks : CallFsmState → List Callback → CallFsmState → Type 0
Walks s [] t = s ≡ t
Walks s (state_changed a b trigger ms ∷ cs) t = (a ≡ s) × (is_valid a b ≡ true) × Walks b cs t
Walks s (_ ∷ cs) t = Walks s cs t

-- How many transitions are reported.
abbrev pub transitions : List Callback → ℕ
transitions [] = 0
transitions (state_changed a b trigger ms ∷ cs) = suc (transitions cs)
transitions (_ ∷ cs) = transitions cs

pub Walks-append :
    (s t u : CallFsmState) (cs ds : List Callback)
    → Walks s cs t
    → Walks t ds u
    → Walks s (cs ++ ds) u
Walks-append s t u [] ds p q = ground arith
Walks-append s t u (state_changed a b trigger ms ∷ cs) ds p q =
    (p.0, p.1, Walks-append b t u cs ds p.2 q)
Walks-append s t u (_ ∷ cs) ds p q = Walks-append s t u cs ds p q

pub transitions-append :
    (cs ds : List Callback) → transitions (cs ++ ds) ≡ transitions cs + transitions ds
transitions-append [] ds = omega arith
transitions-append (state_changed a b trigger ms ∷ cs) ds = omega (arith, transitions-append cs ds)
transitions-append (_ ∷ cs) ds = transitions-append cs ds

module _ (h : FsmHandlers) (heard : h.on_state_changed ≡ true) where
  pub step-Walks :
      (now : ℕ) (e : Event) (m : ConversationFsm)
      → Walks m.state (step h now e m).1 (step h now e m).0.state
  unfolding step
  step-Walks now e m = ground arith

  step-transitions :
      (now : ℕ) (e : Event) (m : ConversationFsm)
      → (step h now e m).0.transition_count ≡ m.transition_count + transitions (step h now e m).1
  unfolding step
  step-transitions now e m = ground arith

  -- With `on_state_changed` set, the transitions reported by a run of any events, at any clock
  -- readings, lead from the first state to the last, each by an entry of `_VALID`, and
  -- `transition_count` grows by their number.
  pub run-Walks :
      (es : List (ℕ × Event)) (m : ConversationFsm)
      → Walks m.state (run h es m).1 (run h es m).0.state
        × ((run h es m).0.transition_count ≡ m.transition_count + transitions (run h es m).1)
  unfolding run
  run-Walks [] m = (refl, omega arith)
  run-Walks ((now, e) ∷ es) m =
      let (m', out) = step h now e m in
      let (walk, counted) = run-Walks es m' in
      (
        Walks-append _ _ _ out _ (step-Walks now e m) walk,
        omega (arith, counted, step-transitions now e m, transitions-append out (run h es m').1),
      )
