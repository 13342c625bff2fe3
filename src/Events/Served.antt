-- ===== src/Events/Served.antt =====
-- Which handlers get an event, whatever the bus of services/conversation/event_bus.py goes through.
use yuviz.Base.{
  ℕ, suc, ◌+◌, ◌≤◌, Bool, true, false, Option, none, some, List, [], ◌∷◌, ◌++◌, length, append-nil,
  append_assoc, All-append, All-imp, take, ltb, Eq, if◌then◌else◌, ◌≡◌, refl, sym, ap, ◌∙◌, arith,
  Bool-cases, Option-cases, inl, inr,
}
use yuviz.Events.{
  Action, start, stop, step, subscribe, publish, publish_async, History, handlers_of, add_handler,
  put, drain_step, cancel_task, act, run, fresh,
}
use yuviz.Events.Calls.{in_hand, events_of-append}
use yuviz.Events.Orderly.{IsOwn, IsOrderly}
use yuviz.Events.Delivery.{IsOwn-stays, run-IsOrderly}
use yuviz.Events.Subscribed.{subscribed, run-handlers}
use yuviz.Events.Serving.{nothing, cut_short, Serves, done_with, with_pending, drain_step-Serves}

-- how often the bus is stopped
abbrev pub stops : {E K H : Type 0} → List (Action E K H) → ℕ
stops [] = 0
stops (stop ∷ actions) = 1 + stops actions
stops (_ ∷ actions) = stops actions

module _ {E K H : Type 0} ⦃eq : Eq K⦄ (type_of : E → K) where
  cancel_task-Serves :
      (n : ℕ) (r : History E K H)
      → Serves type_of n r
      → (m : ℕ) × (m ≤ suc n) × Serves type_of m (cancel_task type_of r)
  unfolding cancel_task
  cancel_task-Serves n r s = elim (Option-cases r.bus.handling) [
    | inl idle ↦ (
      n,
      omega arith,
      rw (cancel_task, idle)
          (record {
            past = s.past;
            rest = s.rest;
            split = s.split;
            all_served = s.all_served;
            waiting = s.waiting;
            first = s.first;
            names = s.names;
          }),
    )
    | inr ((event, i), h) ↦
        let called = take i (handlers_of type_of r.bus event) in
        let t =
          done_with type_of n (suc n) r.bus r.accepted r.expected r.finished event r.bus.queue
            called
            (with_pending type_of n r.bus r.accepted r.expected r.finished _ (event ∷ r.bus.queue)
              (ap (λ (x : Option (E × ℕ)). in_hand x ++ r.bus.queue) h) s)
            (λ hs past own so_far. cut_short n past r.finished event hs called so_far) in
        (
          suc n,
          omega arith,
          rw (cancel_task, h)
              (record {
                past = t.past;
                rest = t.rest;
                split = t.split;
                all_served = t.all_served;
                waiting = t.waiting;
                first = t.first;
                names = t.names;
              }),
        )
  ]

  add_handler-Serves :
      (n : ℕ) (k : K) (h : H) (r : History E K H)
      → Serves type_of n r
      → Serves type_of n (record r { bus = add_handler type_of k h r.bus })
  add_handler-Serves n k h r s = record {
    past = s.past;
    rest = s.rest;
    split = s.split;
    all_served = s.all_served;
    waiting = s.waiting;
    first =
        All-imp (IsOwn type_of r.bus) (IsOwn type_of (add_handler type_of k h r.bus)) s.rest
          (IsOwn-stays type_of k h r.bus) s.first;
    names = s.names;
  }

  tried-Serves :
      (n : ℕ) (event : E) (r : History E K H)
      → Serves type_of n r
      → Serves type_of n (elim (put type_of event r) [ none ↦ r | some after ↦ after ])
  unfolding put
  tried-Serves n event r s = elim (Bool-cases (ltb (length r.bus.queue) r.bus.maxsize)) [
    | inr full ↦ rw (put, full) s
    | inl room ↦
        let hs = handlers_of type_of r.bus event in
        rw (put, room)
          (record {
            past = s.past;
            rest = s.rest ++ (event, hs) ∷ [];
            split =
                ap (λ (xs : List (E × List H)). xs ++ (event, hs) ∷ []) s.split
                ∙ append_assoc s.past s.rest ((event, hs) ∷ []);
            all_served = s.all_served;
            waiting =
                events_of-append s.rest event hs
                ∙ ap (λ (es : List E). es ++ event ∷ []) s.waiting
                ∙ append_assoc (in_hand r.bus.handling) r.bus.queue (event ∷ []);
            first =
                All-append (IsOwn type_of r.bus) s.rest ((event, hs) ∷ []) s.first
                  (([], sym (append-nil hs)), tt);
            names =
                events_of-append r.expected event hs
                ∙ ap (λ (es : List E). es ++ event ∷ []) s.names;
          })
  ]

  abbrev WithinStops : ℕ → History E K H → Type 0
  WithinStops k r = (m : ℕ) × (m ≤ k) × Serves type_of m r

  either :
      (on : Bool) (k : ℕ) (x y : History E K H)
      → WithinStops k x
      → WithinStops k y
      → WithinStops k (if on then x else y)
  either true k x y p q = p
  either false k x y p q = q

  act-Serves :
      (a : Action E K H) (n : ℕ) (r : History E K H)
      → Serves type_of n r
      → WithinStops (stops (a ∷ []) + n) (act type_of a r)
  unfolding act
  act-Serves start n r s = (
    n,
    omega arith,
    record {
      past = s.past;
      rest = s.rest;
      split = s.split;
      all_served = s.all_served;
      waiting = s.waiting;
      first = s.first;
      names = s.names;
    },
  )
  act-Serves stop n r s =
      let (m, few, t) = cancel_task-Serves n r s in
      either r.bus.running (1 + n) (cancel_task type_of r) r (m, omega (arith, few), t)
        (n, omega arith, s)
  act-Serves step n r s =
      either r.bus.running (0 + n) (drain_step type_of r) r
        (n, omega arith, drain_step-Serves type_of n r s) (n, omega arith, s)
  act-Serves (subscribe k h) n r s = (n, omega arith, add_handler-Serves n k h r s)
  act-Serves (publish event) n r s = (n, omega arith, tried-Serves n event r s)
  act-Serves (publish_async event) n r s = (n, omega arith, tried-Serves n event r s)

  stops-first :
      (a : Action E K H) (actions : List (Action E K H))
      → stops (a ∷ actions) ≡ stops (a ∷ []) + stops actions
  stops-first start actions = omega arith
  stops-first stop actions = omega arith
  stops-first step actions = omega arith
  stops-first (subscribe k h) actions = omega arith
  stops-first (publish event) actions = omega arith
  stops-first (publish_async event) actions = omega arith

  pub run-Serves :
      (actions : List (Action E K H)) (n : ℕ) (r : History E K H)
      → Serves type_of n r
      → WithinStops (stops actions + n) (run type_of actions r)
  unfolding run
  run-Serves [] n r s = (n, omega arith, s)
  run-Serves (a ∷ actions) n r s =
      let (m, few, t) = act-Serves a n r s in
      let (k, fewer, u) = run-Serves actions m (act type_of a r) t in
      (k, omega (arith, few, fewer, stops-first a actions), u)

  pub fresh-Serves : (maxsize : ℕ) → Serves {H = H} type_of 0 (fresh type_of maxsize)
  fresh-Serves maxsize = record {
    past = [];
    rest = [];
    split = refl;
    all_served = nothing;
    waiting = refl;
    first = tt;
    names = refl;
  }

  -- Whatever is published, subscribed, started and stopped, and in whatever order it comes to the steps
  -- of the task: the queue never holds more than its size, and the events that it took come out in
  -- that order, all calls for one before those for the next. An event that the task is done with was
  -- handed to the handlers that were subscribed to its class when the queue took it, in the order in
  -- which they subscribed, and to others, if at all, behind them; only events, and at most as many as
  -- the bus was stopped, that were cut short are excepted. The handlers of a class are those that were subscribed to it, in order.
  pub run-IsServing :
      (maxsize : ℕ) (actions : List (Action E K H))
      → let r = run type_of actions (fresh type_of maxsize) in
        IsOrderly type_of r
        × ((m : ℕ) × (m ≤ stops actions) × Serves type_of m r)
        × ((event : E)
            → handlers_of type_of r.bus event ≡ subscribed type_of (type_of event) actions)
  run-IsServing maxsize actions =
      let (m, few, s) = run-Serves actions 0 (fresh type_of maxsize) (fresh-Serves maxsize) in
      (
        run-IsOrderly type_of maxsize actions,
        (m, omega (arith, few), s),
        λ event. run-handlers type_of actions (type_of event) (fresh type_of maxsize),
      )
