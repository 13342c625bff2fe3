-- ===== src/Events/Serving.antt =====
-- Which handlers of services/conversation/event_bus.py get an event: those that were subscribed when it
-- was published.
use yuviz.Base.{
  ℕ, suc, Option, List, [], ◌∷◌, ◌++◌, append_assoc, All, Eq, ◌≡◌, sym, ap, subst, ◌∙◌, arith,
  Option-cases, List-cases, inl, inr,
}
use yuviz.Events.{
  get_elem?, EventBus, History, handlers_of, hand_over, take_event, resume, drain_step,
}
use yuviz.Events.Calls.{events_of, in_hand}
use yuviz.Events.Orderly.{IsOwn}

-- The events that the queue took, with the handlers of the time, against those that the task is done
-- with, with the handlers that it called: those and none before them, except for events, as many as the
-- number says, at which the task was cut short.
pub data Served {E H : Type 0} : ℕ → List (E × List H) → List (E × List H) → Type 0 where
  nothing : Served 0 [] []
  served :
      (n : ℕ) (taken done : List (E × List H)) (event : E) (handlers called later : List H)
      → Served n taken done
      → called ≡ handlers ++ later
      → Served n (taken ++ (event, handlers) ∷ []) (done ++ (event, called) ∷ [])
  cut_short :
      (n : ℕ) (taken done : List (E × List H)) (event : E) (handlers called : List H)
      → Served n taken done
      → Served (suc n) (taken ++ (event, handlers) ∷ []) (done ++ (event, called) ∷ [])

module _ {E K H : Type 0} ⦃eq : Eq K⦄ (type_of : E → K) where
  -- With events still in the bus: those that the task is done with are served, and the handlers that the
  -- others had when they were taken are the first of their class.
  pub record IsServing (n : ℕ) (b : EventBus E K H) (accepted : List E)
      (expected finished : List (E × List H)) (pending : List E) : Type 0 where
    pub past : List (E × List H)
    pub rest : List (E × List H)
    pub split : expected ≡ past ++ rest
    pub all_served : Served n past finished
    pub waiting : events_of rest ≡ pending
    pub first : All (IsOwn type_of b) rest
    pub names : events_of expected ≡ accepted

  abbrev pub Serves : ℕ → History E K H → Type 0
  Serves n r =
      IsServing n r.bus r.accepted r.expected r.finished (in_hand r.bus.handling ++ r.bus.queue)

  -- The first event of those that are pending is done with.
  pub done_with :
      (n m : ℕ) (b : EventBus E K H) (accepted : List E) (expected finished : List (E × List H))
      (event : E) (queue : List E) (called : List H)
      → IsServing n b accepted expected finished (event ∷ queue)
      → ((handlers : List H) (past : List (E × List H))
          → IsOwn type_of b (event, handlers)
          → Served n past finished
          → Served m (past ++ (event, handlers) ∷ []) (finished ++ (event, called) ∷ []))
      → IsServing m b accepted expected (finished ++ (event, called) ∷ []) queue
  done_with n m b accepted expected finished event queue called s goes = elim (List-cases s.rest) [
    | inl empty ↦ absurd (ground (arith, empty, s.waiting))
    | inr ((e, handlers), rest, h) ↦
        let same : e ≡ event = ground (arith, h, s.waiting) in
        let own : All (IsOwn type_of b) ((e, handlers) ∷ rest) =
          subst (All (IsOwn type_of b)) h s.first in
        record {
          past = s.past ++ (event, handlers) ∷ [];
          rest = rest;
          split =
              s.split
              ∙ ap (λ (xs : List (E × List H)). s.past ++ xs) h
              ∙ ap (λ (x : E). s.past ++ (x, handlers) ∷ rest) same
              ∙ sym (append_assoc s.past ((event, handlers) ∷ []) rest);
          all_served =
              goes handlers s.past (subst (λ (x : E). IsOwn type_of b (x, handlers)) same own.0)
                s.all_served;
          waiting = ground (arith, h, s.waiting);
          first = own.1;
          names = s.names;
        }
  ]

  hand_over-Serves :
      (n : ℕ) (event : E) (i : ℕ) (r : History E K H)
      → IsServing n r.bus r.accepted r.expected r.finished (event ∷ r.bus.queue)
      → Serves n (hand_over type_of event i r)
  unfolding hand_over
  hand_over-Serves n event i r s =
      let handlers = handlers_of type_of r.bus event in
      elim (Option-cases (get_elem? handlers i)) [
        | inr (h, found) ↦
            rw (hand_over, found)
              (record {
                past = s.past;
                rest = s.rest;
                split = s.split;
                all_served = s.all_served;
                waiting = s.waiting;
                first = s.first;
                names = s.names;
              })
        | inl over ↦
            let t =
              done_with n n r.bus r.accepted r.expected r.finished event r.bus.queue handlers s
                (λ hs past own so_far.
                  served n past r.finished event hs handlers own.0 so_far own.1) in
            rw (hand_over, over)
              (record {
                past = t.past;
                rest = t.rest;
                split = t.split;
                all_served = t.all_served;
                waiting = t.waiting;
                first = t.first;
                names = t.names;
              })
      ]

  pub with_pending :
      (n : ℕ) (b : EventBus E K H) (accepted : List E) (expected finished : List (E × List H))
      (pending others : List E)
      → pending ≡ others
      → IsServing n b accepted expected finished pending
      → IsServing n b accepted expected finished others
  with_pending n b accepted expected finished pending others e s =
      subst (IsServing n b accepted expected finished) e s

  pub drain_step-Serves : (n : ℕ) (r : History E K H) → Serves n r → Serves n (drain_step type_of r)
  unfolding drain_step
  drain_step-Serves n r s = elim (Option-cases r.bus.handling) [
    | inr ((event, i), h) ↦
        subst (Serves n) (sym (ap (λ (x : Option (E × ℕ)). resume type_of x r) h)) (
          hand_over-Serves n event i r (
            with_pending n r.bus r.accepted r.expected r.finished _ (event ∷ r.bus.queue)
              (ap (λ (x : Option (E × ℕ)). in_hand x ++ r.bus.queue) h) s))
    | inl idle ↦
        subst (Serves n) (sym (ap (λ (x : Option (E × ℕ)). resume type_of x r) idle))
          (elim (List-cases r.bus.queue) [
            | inl empty ↦
                subst (Serves n) (sym (ap (λ (q : List E). take_event type_of q r) empty)) s
            | inr (event, queue, h) ↦
                let t =
                  with_pending n r.bus r.accepted r.expected r.finished _ (event ∷ queue)
                    (ap (λ (x : Option (E × ℕ)). in_hand x ++ r.bus.queue) idle ∙ h) s in
                subst (Serves n) (sym (ap (λ (q : List E). take_event type_of q r) h)) (
                  hand_over-Serves n event 0 (record r { bus = record r.bus { queue = queue } })
                    (record {
                      past = t.past;
                      rest = t.rest;
                      split = t.split;
                      all_served = t.all_served;
                      waiting = t.waiting;
                      first = t.first;
                      names = t.names;
                    }))
          ])
  ]
