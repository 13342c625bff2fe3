-- ===== src/Events/Delivery.antt =====
-- What services/conversation/event_bus.py delivers.
use yuviz.Base.{
  ℕ, Bool, true, false, Option, none, some, List, [], ◌∷◌, ◌++◌, length, length-append, append-nil,
  append_assoc, All-append, All-imp, drop, take-append-drop, take, ltb, Eq, if◌then◌else◌, ◌≡◌,
  refl, sym, ap, ◌∙◌, arith, Bool-cases, Option-cases, inl, inr,
}
use yuviz.Base.Dict.{get_or, get_or-insert}
use yuviz.Events.{
  EventBus, Action, start, stop, step, subscribe, publish, publish_async, History, handlers_of,
  add_handler, put, drain_step, cancel_task, act, run, fresh,
}
use yuviz.Events.Calls.{
  calls_of, all_calls, events_of, in_hand, all_calls-append, events_of-append, take-append,
}
use yuviz.Events.Orderly.{
  calls_so_far, IsPlaced, IsOwn, IsOrderly, in_hand-IsAt, drain_step-IsOrderly,
}

module _ {E K H : Type 0} ⦃eq : Eq K⦄ (type_of : E → K) where
  cancel_task-IsOrderly :
      (r : History E K H) → IsOrderly type_of r → IsOrderly type_of (cancel_task type_of r)
  unfolding cancel_task
  cancel_task-IsOrderly r o = elim (Option-cases r.bus.handling) [
    | inl idle ↦
        rw (cancel_task, idle)
          (record {
            in_order = o.in_order;
            handed = o.handed;
            own = o.own;
            placed = o.placed;
            bounded = o.bounded;
          })
    | inr ((event, i), h) ↦
        let at = in_hand-IsAt type_of event i r h o in
        let called = take i (handlers_of type_of r.bus event) in
        rw (cancel_task, h)
          (record {
            in_order =
                at.in_order
                ∙ sym (
                    rw (events_of-append r.finished event called)
                      (append_assoc (events_of r.finished) (event ∷ []) r.bus.queue));
            handed =
                at.handed
                ∙ sym (all_calls-append r.finished event called)
                ∙ sym (append-nil (all_calls (r.finished ++ (event, called) ∷ [])));
            own = All-append (IsOwn type_of r.bus) r.finished ((event, called) ∷ []) at.own (
              (
                drop i (handlers_of type_of r.bus event),
                sym (take-append-drop i (handlers_of type_of r.bus event)),
              ),
              tt,
            );
            placed = tt;
            bounded = at.bounded;
          })
  ]

  handlers_grow :
      (k : K) (h : H) (b : EventBus E K H) (event : E)
      → (more : List H) × (handlers_of type_of (add_handler type_of k h b) event
          ≡ handlers_of type_of b event ++ more)
  handlers_grow k h b event = elim (Bool-cases (eq.is_same k (type_of event))) [
    | inl same ↦ (
      h ∷ [],
      get_or-insert k (type_of event) (get_or k b.subscribers [] ++ h ∷ []) [] b.subscribers
          ∙ rw same (
              ap (λ (j : K). get_or j b.subscribers [] ++ h ∷ [])
                ((eq.is_same_iff k (type_of event)).0 same)),
    )
    | inr other ↦ (
      [],
      get_or-insert k (type_of event) (get_or k b.subscribers [] ++ h ∷ []) [] b.subscribers
          ∙ rw other (sym (append-nil (handlers_of type_of b event))),
    )
  ]

  calls_so_far_stay :
      (k : K) (h : H) (b : EventBus E K H) (x : Option (E × ℕ))
      → IsPlaced type_of b x
      → calls_so_far type_of b x ≡ calls_so_far type_of (add_handler type_of k h b) x
  calls_so_far_stay k h b none placed = refl
  calls_so_far_stay k h b (some (event, i)) placed =
      let (more, grown) = handlers_grow k h b event in
      ap (λ (hs : List H). calls_of event hs)
        (sym (
          ap (λ (hs : List H). take i hs) grown
          ∙ take-append (handlers_of type_of b event) more i placed))

  IsPlaced-stays :
      (k : K) (h : H) (b : EventBus E K H) (x : Option (E × ℕ))
      → IsPlaced type_of b x
      → IsPlaced type_of (add_handler type_of k h b) x
  IsPlaced-stays k h b none placed = tt
  IsPlaced-stays k h b (some (event, i)) placed =
      let (more, grown) = handlers_grow k h b event in
      omega (arith, placed, ap length grown, length-append (handlers_of type_of b event) more)

  pub IsOwn-stays :
      (k : K) (h : H) (b : EventBus E K H) (f : E × List H)
      → IsOwn type_of b f
      → IsOwn type_of (add_handler type_of k h b) f
  IsOwn-stays k h b f (more, e) =
      let (new, grown) = handlers_grow k h b f.0 in
      (more ++ new, grown ∙ ap (λ (hs : List H). hs ++ new) e ∙ append_assoc f.1 more new)

  add_handler-IsOrderly :
      (k : K) (h : H) (r : History E K H)
      → IsOrderly type_of r
      → IsOrderly type_of (record r { bus = add_handler type_of k h r.bus })
  add_handler-IsOrderly k h r o = record {
    in_order = o.in_order;
    handed =
        o.handed
        ∙ ap (λ (calls : List (H × E)). all_calls r.finished ++ calls)
            (calls_so_far_stay k h r.bus r.bus.handling o.placed);
    own =
        All-imp (IsOwn type_of r.bus) (IsOwn type_of (add_handler type_of k h r.bus)) r.finished
          (IsOwn-stays k h r.bus) o.own;
    placed = IsPlaced-stays k h r.bus r.bus.handling o.placed;
    bounded = o.bounded;
  }

  tried-IsOrderly :
      (event : E) (r : History E K H)
      → IsOrderly type_of r
      → IsOrderly type_of (elim (put type_of event r) [ none ↦ r | some after ↦ after ])
  unfolding put
  tried-IsOrderly event r o = elim (Bool-cases (ltb (length r.bus.queue) r.bus.maxsize)) [
    | inr full ↦ rw (put, full) o
    | inl room ↦
        rw (put, room)
          (record {
            in_order =
                ap (λ (es : List E). es ++ event ∷ []) o.in_order
                ∙ append_assoc (events_of r.finished) (in_hand r.bus.handling ++ r.bus.queue)
                    (event ∷ [])
                ∙ ap (λ (es : List E). events_of r.finished ++ es)
                    (append_assoc (in_hand r.bus.handling) r.bus.queue (event ∷ []));
            handed = o.handed;
            own = o.own;
            placed = o.placed;
            bounded = ground (arith, room, length-append r.bus.queue (event ∷ []));
          })
  ]

  either :
      (on : Bool) (x y : History E K H)
      → IsOrderly type_of x
      → IsOrderly type_of y
      → IsOrderly type_of (if on then x else y)
  either true x y p q = p
  either false x y p q = q

  act-IsOrderly :
      (a : Action E K H) (r : History E K H)
      → IsOrderly type_of r
      → IsOrderly type_of (act type_of a r)
  unfolding act
  act-IsOrderly start r o = record {
    in_order = o.in_order;
    handed = o.handed;
    own = o.own;
    placed = o.placed;
    bounded = o.bounded;
  }
  act-IsOrderly stop r o =
      either r.bus.running (cancel_task type_of r) r (cancel_task-IsOrderly r o) o
  act-IsOrderly step r o =
      either r.bus.running (drain_step type_of r) r (drain_step-IsOrderly type_of r o) o
  act-IsOrderly (subscribe k h) r o = add_handler-IsOrderly k h r o
  act-IsOrderly (publish event) r o = tried-IsOrderly event r o
  act-IsOrderly (publish_async event) r o = tried-IsOrderly event r o

  pub run_from :
      (actions : List (Action E K H)) (r : History E K H)
      → IsOrderly type_of r
      → IsOrderly type_of (run type_of actions r)
  unfolding run
  run_from [] r o = o
  run_from (a ∷ actions) r o = run_from actions (act type_of a r) (act-IsOrderly a r o)

  -- the order of all that the bus does
  pub run-IsOrderly :
      (maxsize : ℕ) (actions : List (Action E K H))
      → IsOrderly type_of (run type_of actions (fresh type_of maxsize))
  run-IsOrderly maxsize actions =
      run_from actions (fresh type_of maxsize)
        (record { in_order = refl; handed = refl; own = tt; placed = tt; bounded = omega arith })
