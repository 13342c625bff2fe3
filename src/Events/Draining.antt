-- ===== src/Events/Draining.antt =====
-- The task of services/conversation/event_bus.py empties the queue.
use yuviz.Base.{
  ℕ, zero, suc, ◌+◌, ◌-◌, ◌≤◌, Bool, true, Option, none, some, List, [], ◌∷◌, ◌++◌, length,
  append-nil, leb, Eq, if◌then◌else◌, ◌≡◌, refl, sym, ap, subst, ◌∙◌, arith, Bool-cases,
  Option-cases, List-cases, inl, inr,
}
use yuviz.Events.{
  get_elem?, EventBus, Action, step, History, handlers_of, hand_over, take_event, resume,
  drain_step, act, run, fresh,
}
use yuviz.Events.Calls.{all_calls, events_of, in_hand, next_within, past_end}
use yuviz.Events.Orderly.{calls_so_far, IsPlaced, IsOrderly, drain_step-IsOrderly}
use yuviz.Events.Delivery.{run_from, run-IsOrderly}
use yuviz.Events.Serving.{Served}
use yuviz.Events.Served.{stops, run-Serves, fresh-Serves}

-- steps of the task, and nothing else
abbrev pub steps : {E K H : Type 0} → ℕ → List (Action E K H)
steps zero = []
steps (suc n) = step ∷ steps n

no_stops : (E K H : Type 0) (n : ℕ) → stops {E = E} {K = K} {H = H} (steps n) ≡ 0
no_stops E K H zero = refl
no_stops E K H (suc n) = no_stops E K H n

module _ {E K H : Type 0} ⦃eq : Eq K⦄ (type_of : E → K) where
  -- the steps that an event takes
  abbrev pub cost : EventBus E K H → E → ℕ
  cost b event = length (handlers_of type_of b event) + 1

  abbrev pub queue_cost : EventBus E K H → List E → ℕ
  queue_cost b [] = 0
  queue_cost b (event ∷ queue) = cost b event + queue_cost b queue

  abbrev pub hand_cost : EventBus E K H → Option (E × ℕ) → ℕ
  hand_cost b none = 0
  hand_cost b (some (event, i)) = cost b event - i

  -- the steps until the queue is empty and no event is in hand
  abbrev pub work : EventBus E K H → ℕ
  work b = hand_cost b b.handling + queue_cost b b.queue

  same_cost :
      (b : EventBus E K H) (queue : List E) (n : ℕ) (x : Option (E × ℕ)) (q : List E)
      → queue_cost (record b { handling = x; unfinished = n; queue = q }) queue ≡ queue_cost b queue
  same_cost b [] n x q = refl
  same_cost b (event ∷ queue) n x q = omega (arith, same_cost b queue n x q)

  record IsStep (m : ℕ) (r : History E K H) : Type 0 where
    cost_left : work r.bus + 1 ≡ m
    still_on : r.bus.running ≡ true

  hand_over_works :
      (event : E) (i : ℕ) (r : History E K H)
      → r.bus.running ≡ true
      → i ≤ length (handlers_of type_of r.bus event)
      → IsStep ((cost r.bus event - i) + queue_cost r.bus r.bus.queue) (hand_over type_of event i r)
  unfolding hand_over
  hand_over_works event i r on within =
      elim (Option-cases (get_elem? (handlers_of type_of r.bus event) i)) [
        | inr (h, found) ↦
            rw (hand_over, found)
              (record {
                cost_left = omega (
                  arith,
                  next_within (handlers_of type_of r.bus event) i h found,
                  same_cost r.bus r.bus.queue r.bus.unfinished (some (event, suc i)) r.bus.queue,
                );
                still_on = on;
              })
        | inl over ↦
            rw (hand_over, over)
              (record {
                cost_left = omega (
                  arith,
                  within,
                  past_end (handlers_of type_of r.bus event) i over,
                  same_cost r.bus r.bus.queue (r.bus.unfinished - 1) none r.bus.queue,
                );
                still_on = on;
              })
      ]

  IsStep-of : {m k : ℕ} {r t : History E K H} → m ≡ k → r ≡ t → IsStep k t → IsStep m r
  IsStep-of {m = m} e f s =
      subst (IsStep m) (sym f) (record { cost_left = s.cost_left ∙ sym e; still_on = s.still_on })

  drain_step_works :
      (r : History E K H)
      → IsOrderly type_of r
      → r.bus.running ≡ true
      → 1 ≤ work r.bus
      → IsStep (work r.bus) (drain_step type_of r)
  unfolding drain_step
  drain_step_works r o on more = elim (Option-cases r.bus.handling) [
    | inr ((event, i), h) ↦
        IsStep-of (ap (λ (x : Option (E × ℕ)). hand_cost r.bus x + queue_cost r.bus r.bus.queue) h)
          (ap (λ (x : Option (E × ℕ)). resume type_of x r) h)
          (hand_over_works event i r on (subst (IsPlaced type_of r.bus) h o.placed))
    | inl idle ↦ elim (List-cases r.bus.queue) [
      | inl empty ↦
          absurd (omega (arith, more, ap (hand_cost r.bus) idle, ap (queue_cost r.bus) empty))
      | inr (event, queue, h) ↦
          IsStep-of
            (omega (
              arith,
              ap (hand_cost r.bus) idle,
              ap (queue_cost r.bus) h,
              same_cost r.bus queue r.bus.unfinished r.bus.handling queue,
            ))
            (ap (λ (x : Option (E × ℕ)). resume type_of x r) idle
              ∙ ap (λ (q : List E). take_event type_of q r) h)
            (hand_over_works event 0 (record r { bus = record r.bus { queue = queue } }) on
              (omega arith))
    ]
  ]

  -- nothing in hand, and nothing waiting
  abbrev pub IsDrained : EventBus E K H → Type 0
  IsDrained b = (b.handling ≡ none) × (b.queue ≡ [])

  no_work : (b : EventBus E K H) → IsPlaced type_of b b.handling → work b ≡ 0 → IsDrained b
  no_work b placed none_left = elim (Option-cases b.handling) [
    | inr ((event, i), h) ↦
        absurd (omega (arith, none_left, ap (hand_cost b) h, subst (IsPlaced type_of b) h placed))
    | inl idle ↦ elim (List-cases b.queue) [
      | inl empty ↦ (idle, empty)
      | inr (event, queue, h) ↦ absurd (omega (arith, none_left, ap (queue_cost b) h))
    ]
  ]

  drained_stays : (r : History E K H) → IsDrained r.bus → drain_step type_of r ≡ r
  unfolding drain_step
  drained_stays r (idle, empty) =
      ap (λ (x : Option (E × ℕ)). resume type_of x r) idle
      ∙ ap (λ (q : List E). take_event type_of q r) empty

  works : (r : History E K H) → r.bus.running ≡ true → act type_of step r ≡ drain_step type_of r
  unfolding act
  works r on = ap (λ (b : Bool). if b then drain_step type_of r else r) on

  steps_drain :
      (n : ℕ) (r : History E K H)
      → IsOrderly type_of r
      → r.bus.running ≡ true
      → work r.bus ≤ n
      → IsDrained (run type_of (steps n) r).bus
  unfolding run
  steps_drain zero r o on enough = no_work r.bus o.placed (omega (arith, enough))
  steps_drain (suc n) r o on enough =
      subst (λ (t : History E K H). IsDrained (run type_of (steps n) t).bus) (sym (works r on))
        (elim (Bool-cases (leb 1 (work r.bus))) [
          | inl more ↦
              let s = drain_step_works r o on (ground (arith, more)) in
              steps_drain n (drain_step type_of r) (drain_step-IsOrderly type_of r o) s.still_on
                (omega (arith, enough, s.cost_left))
          | inr none_left ↦
              let left : work r.bus ≡ 0 = ground (arith, none_left) in
              subst (λ (t : History E K H). IsDrained (run type_of (steps n) t).bus)
                (sym (drained_stays r (no_work r.bus o.placed left)))
                (steps_drain n r o on (omega (arith, left)))
        ])

  nothing_waits : (rest : List (E × List H)) → events_of rest ≡ [] → rest ≡ []
  nothing_waits [] h = refl
  nothing_waits (x ∷ rest) h = ground (arith, h)

  -- After whatever was published and subscribed, a running task that takes enough steps hands every
  -- event that the queue took to the handlers that were subscribed to its class then, and to others, if
  -- at all, behind them; at most as many events as the bus was stopped before are excepted. The calls are those and
  -- no others, in the order of the events. Enough is one step for each call of a handler that is left,
  -- and one for each event.
  pub steps_deliver_all :
      (maxsize : ℕ) (actions : List (Action E K H)) (n : ℕ)
      → (run type_of actions (fresh type_of maxsize)).bus.running ≡ true
      → work (run type_of actions (fresh type_of maxsize)).bus ≤ n
      → let after = run type_of (steps n) (run type_of actions (fresh type_of maxsize)) in
        (after.accepted ≡ events_of after.expected)
        × ((m : ℕ) × (m ≤ stops actions) × Served m after.expected after.finished)
        × (after.delivered ≡ all_calls after.finished)
  steps_deliver_all maxsize actions n on enough =
      let before = run type_of actions (fresh type_of maxsize) in
      let orderly = run-IsOrderly type_of maxsize actions in
      let after = run type_of (steps n) before in
      let (idle, empty) = steps_drain n before orderly on enough in
      let o = run_from type_of (steps n) before orderly in
      let (k, few, s) =
        run-Serves type_of actions 0 (fresh type_of maxsize) (fresh-Serves type_of maxsize) in
      let (m, no_more, t) = run-Serves type_of (steps n) k before s in
      let gone : t.rest ≡ [] =
        nothing_waits t.rest
          (t.waiting ∙ ap (λ (x : Option (E × ℕ)). in_hand x ++ after.bus.queue) idle ∙ empty) in
      let whole : after.expected ≡ t.past =
        t.split ∙ ap (λ (xs : List (E × List H)). t.past ++ xs) gone ∙ append-nil t.past in
      (
        sym t.names,
        (
          m,
          omega (arith, few, no_more, no_stops E K H n),
          subst (λ (xs : List (E × List H)). Served m xs after.finished) (sym whole) t.all_served,
        ),
        o.handed
            ∙ ap
                (λ (x : Option (E × ℕ)).
                  all_calls after.finished ++ calls_so_far type_of after.bus x)
                idle
            ∙ append-nil (all_calls after.finished),
      )
