-- ===== src/Events/Subscribed.antt =====
-- The handlers of a class in services/conversation/event_bus.py are those that `subscribe` was called with.
use yuviz.Base.{
  ℕ, Bool, true, false, Option, none, some, List, [], ◌∷◌, ◌++◌, length, append-nil, append_assoc,
  ltb, Eq, ◌==◌, if◌then◌else◌, ◌≡◌, refl, sym, ap, ◌∙◌, Bool-cases, Option-cases, inl, inr,
}
use yuviz.Base.Dict.{get_or, get_or-insert}
use yuviz.Events.{
  get_elem?, Action, start, stop, step, subscribe, publish, publish_async, History, handlers_of,
  put, hand_over, take_event, resume, drain_step, cancel_task, act, run,
}

module _ {E K H : Type 0} ⦃eq : Eq K⦄ (type_of : E → K) where
  -- the handlers that the actions subscribe to a class, in order
  abbrev pub subscribed : K → List (Action E K H) → List H
  subscribed k [] = []
  subscribed k (subscribe j h ∷ actions) =
      let rest = subscribed k actions in if j == k then h ∷ rest else rest
  subscribed k (_ ∷ actions) = subscribed k actions

  hand_over-subscribers :
      (event : E) (i : ℕ) (r : History E K H)
      → (hand_over type_of event i r).bus.subscribers ≡ r.bus.subscribers
  unfolding hand_over
  hand_over-subscribers event i r =
      elim (Option-cases (get_elem? (handlers_of type_of r.bus event) i)) [
        | inl e ↦ rw (hand_over, e) refl
        | inr (h, e) ↦ rw (hand_over, e) refl
      ]

  take_event-subscribers :
      (queue : List E) (r : History E K H)
      → (take_event type_of queue r).bus.subscribers ≡ r.bus.subscribers
  take_event-subscribers [] r = refl
  take_event-subscribers (event ∷ queue) r = hand_over-subscribers event 0 _

  resume-subscribers :
      (x : Option (E × ℕ)) (r : History E K H)
      → (resume type_of x r).bus.subscribers ≡ r.bus.subscribers
  resume-subscribers none r = take_event-subscribers r.bus.queue r
  resume-subscribers (some (event, i)) r = hand_over-subscribers event i r

  drain_step-subscribers :
      (r : History E K H) → (drain_step type_of r).bus.subscribers ≡ r.bus.subscribers
  unfolding drain_step
  drain_step-subscribers r = resume-subscribers r.bus.handling r

  cancel_task-subscribers :
      (r : History E K H) → (cancel_task type_of r).bus.subscribers ≡ r.bus.subscribers
  unfolding cancel_task
  cancel_task-subscribers r = elim (Option-cases r.bus.handling) [
    | inl e ↦ rw (cancel_task, e) refl
    | inr (x, e) ↦ rw (cancel_task, e) refl
  ]

  tried-subscribers :
      (event : E) (r : History E K H)
      → (elim (put type_of event r) as (λ _. History E K H) [
        | none ↦ r
        | some after ↦ after
      ]).bus.subscribers
        ≡ r.bus.subscribers
  unfolding put
  tried-subscribers event r = elim (Bool-cases (ltb (length r.bus.queue) r.bus.maxsize)) [
    | inl room ↦ rw (put, room) refl
    | inr full ↦ rw (put, full) refl
  ]

  either :
      (on : Bool) (x r : History E K H)
      → x.bus.subscribers ≡ r.bus.subscribers
      → (if on then x else r).bus.subscribers ≡ r.bus.subscribers
  either true x r e = e
  either false x r e = refl

  abbrev handlers : K → History E K H → List H
  handlers k r = get_or k r.bus.subscribers []

  act-handlers :
      (a : Action E K H) (k : K) (r : History E K H)
      → handlers k (act type_of a r) ≡ handlers k r ++ subscribed k (a ∷ [])
  unfolding act
  act-handlers start k r = sym (append-nil (handlers k r))
  act-handlers stop k r =
      ap (λ s. get_or k s [])
        (either r.bus.running (cancel_task type_of r) r (cancel_task-subscribers r))
      ∙ sym (append-nil (handlers k r))
  act-handlers step k r =
      ap (λ s. get_or k s [])
        (either r.bus.running (drain_step type_of r) r (drain_step-subscribers r))
      ∙ sym (append-nil (handlers k r))
  act-handlers (subscribe j h) k r =
      get_or-insert j k (handlers j r ++ h ∷ []) [] r.bus.subscribers ∙ elim (Bool-cases (j == k)) [
        | inl same ↦ rw same (ap (λ (i : K). handlers i r ++ h ∷ []) ((eq.is_same_iff j k).0 same))
        | inr other ↦ rw other (sym (append-nil (handlers k r)))
      ]
  act-handlers (publish event) k r =
      ap (λ s. get_or k s []) (tried-subscribers event r) ∙ sym (append-nil (handlers k r))
  act-handlers (publish_async event) k r =
      ap (λ s. get_or k s []) (tried-subscribers event r) ∙ sym (append-nil (handlers k r))

  subscribed-first :
      (a : Action E K H) (k : K) (actions : List (Action E K H))
      → subscribed k (a ∷ actions) ≡ subscribed k (a ∷ []) ++ subscribed k actions
  subscribed-first (subscribe j h) k actions = elim (Bool-cases (j == k)) [
    | inl same ↦ rw same refl
    | inr other ↦ rw other refl
  ]
  subscribed-first start k actions = refl
  subscribed-first stop k actions = refl
  subscribed-first step k actions = refl
  subscribed-first (publish event) k actions = refl
  subscribed-first (publish_async event) k actions = refl

  pub run-handlers :
      (actions : List (Action E K H)) (k : K) (r : History E K H)
      → handlers k (run type_of actions r) ≡ handlers k r ++ subscribed k actions
  unfolding run
  run-handlers [] k r = sym (append-nil (handlers k r))
  run-handlers (a ∷ actions) k r =
      run-handlers actions k (act type_of a r)
      ∙ ap (λ (hs : List H). hs ++ subscribed k actions) (act-handlers a k r)
      ∙ append_assoc (handlers k r) (subscribed k (a ∷ [])) (subscribed k actions)
      ∙ ap (λ (hs : List H). handlers k r ++ hs) (sym (subscribed-first a k actions))
