-- ===== src/Events/Orderly.antt =====
-- The order of events in services/conversation/event_bus.py, and the steps of its task.
use yuviz.Base.{
  ℕ, ◌≤◌, Option, none, some, List, [], ◌∷◌, ◌++◌, length, append-nil, append_assoc, All,
  All-append, take, Eq, ◌≡◌, sym, ap, subst, ◌∙◌, arith, Option-cases, List-cases, inl, inr,
}
use yuviz.Events.{
  get_elem?, EventBus, History, handlers_of, hand_over, take_event, resume, drain_step,
}
use yuviz.Events.Calls.{
  calls_of, all_calls, events_of, in_hand, calls_of-append, all_calls-append, events_of-append,
  take-next, next_within, take-all,
}

module _ {E K H : Type 0} ⦃eq : Eq K⦄ (type_of : E → K) where
  -- the calls that the event in hand has had
  abbrev pub calls_so_far : EventBus E K H → Option (E × ℕ) → List (H × E)
  calls_so_far b none = []
  calls_so_far b (some (event, i)) = calls_of event (take i (handlers_of type_of b event))

  -- the event in hand is at one of its handlers, or past the last
  abbrev pub IsPlaced : EventBus E K H → Option (E × ℕ) → Type 0
  IsPlaced b none = Unit
  IsPlaced b (some (event, i)) = i ≤ length (handlers_of type_of b event)

  -- the handlers that an event was handed to are the first of its class
  abbrev pub IsOwn : EventBus E K H → E × List H → Type 0
  IsOwn b f = (more : List H) × (handlers_of type_of b f.0 ≡ f.1 ++ more)

  -- Events go through the bus in order, each is handed to its handlers in order, one event after the
  -- other, and the queue keeps to its size.
  pub record IsOrderly (r : History E K H) : Type 0 where
    pub in_order : r.accepted ≡ events_of r.finished ++ (in_hand r.bus.handling ++ r.bus.queue)
    pub handed : r.delivered ≡ all_calls r.finished ++ calls_so_far r.bus r.bus.handling
    pub own : All (IsOwn r.bus) r.finished
    pub placed : IsPlaced r.bus r.bus.handling
    pub bounded : length r.bus.queue ≤ r.bus.maxsize

  -- with an event in hand, at a place
  pub record IsAt (event : E) (i : ℕ) (r : History E K H) : Type 0 where
    pub in_order : r.accepted ≡ events_of r.finished ++ event ∷ r.bus.queue
    pub handed :
        r.delivered
        ≡ all_calls r.finished ++ calls_of event (take i (handlers_of type_of r.bus event))
    pub own : All (IsOwn r.bus) r.finished
    pub placed : i ≤ length (handlers_of type_of r.bus event)
    pub bounded : length r.bus.queue ≤ r.bus.maxsize

  hand_over-IsOrderly :
      (event : E) (i : ℕ) (r : History E K H)
      → IsAt event i r
      → IsOrderly (hand_over type_of event i r)
  unfolding hand_over
  hand_over-IsOrderly event i r o =
      let handlers = handlers_of type_of r.bus event in
      elim (Option-cases (get_elem? handlers i)) [
        | inr (h, found) ↦
            rw (hand_over, found)
              (record {
                in_order = o.in_order;
                handed =
                    rw
                      (
                        o.handed,
                        take-next handlers i h found,
                        calls_of-append event (take i handlers) (h ∷ []),
                      )
                      (append_assoc (all_calls r.finished) (calls_of event (take i handlers))
                        ((h, event) ∷ []));
                own = o.own;
                placed = next_within handlers i h found;
                bounded = o.bounded;
              })
        | inl over ↦
            rw (hand_over, over)
              (record {
                in_order =
                    o.in_order
                    ∙ sym (
                        rw (events_of-append r.finished event handlers)
                          (append_assoc (events_of r.finished) (event ∷ []) r.bus.queue));
                handed =
                    o.handed
                    ∙ ap (λ (hs : List H). all_calls r.finished ++ calls_of event hs)
                        (take-all handlers i over)
                    ∙ sym (all_calls-append r.finished event handlers)
                    ∙ sym (append-nil (all_calls (r.finished ++ (event, handlers) ∷ [])));
                own =
                    All-append (IsOwn r.bus) r.finished ((event, handlers) ∷ []) o.own
                      (([], sym (append-nil handlers)), tt);
                placed = tt;
                bounded = o.bounded;
              })
      ]

  pub in_hand-IsAt :
      (event : E) (i : ℕ) (r : History E K H)
      → r.bus.handling ≡ some (event, i)
      → IsOrderly r
      → IsAt event i r
  in_hand-IsAt event i r h o = record {
    in_order =
        o.in_order
        ∙ ap (λ (x : Option (E × ℕ)). events_of r.finished ++ (in_hand x ++ r.bus.queue)) h;
    handed = o.handed ∙ ap (λ (x : Option (E × ℕ)). all_calls r.finished ++ calls_so_far r.bus x) h;
    own = o.own;
    placed = subst (IsPlaced r.bus) h o.placed;
    bounded = o.bounded;
  }

  taken-IsAt :
      (event : E) (queue : List E) (r : History E K H)
      → r.bus.handling ≡ none
      → r.bus.queue ≡ event ∷ queue
      → IsOrderly r
      → IsAt event 0 (record r { bus = record r.bus { queue = queue } })
  taken-IsAt event queue r idle h o = record {
    in_order =
        o.in_order
        ∙ ap (λ (x : Option (E × ℕ)). events_of r.finished ++ (in_hand x ++ r.bus.queue)) idle
        ∙ ap (λ (q : List E). events_of r.finished ++ q) h;
    handed =
        o.handed ∙ ap (λ (x : Option (E × ℕ)). all_calls r.finished ++ calls_so_far r.bus x) idle;
    own = o.own;
    placed = omega arith;
    bounded = omega (arith, ap length h, o.bounded);
  }

  pub drain_step-IsOrderly : (r : History E K H) → IsOrderly r → IsOrderly (drain_step type_of r)
  unfolding drain_step
  drain_step-IsOrderly r o = elim (Option-cases r.bus.handling) [
    | inr ((event, i), h) ↦
        subst IsOrderly (sym (ap (λ (x : Option (E × ℕ)). resume type_of x r) h))
          (hand_over-IsOrderly event i r (in_hand-IsAt event i r h o))
    | inl idle ↦
        subst IsOrderly (sym (ap (λ (x : Option (E × ℕ)). resume type_of x r) idle))
          (elim (List-cases r.bus.queue) [
            | inl empty ↦
                subst IsOrderly (sym (ap (λ (q : List E). take_event type_of q r) empty)) o
            | inr (event, queue, h) ↦
                subst IsOrderly (sym (ap (λ (q : List E). take_event type_of q r) h)) (
                  hand_over-IsOrderly event 0 (record r { bus = record r.bus { queue = queue } })
                    (taken-IsAt event queue r idle h o))
          ])
  ]
