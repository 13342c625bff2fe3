-- ===== src/Events.antt =====
-- services/conversation/event_bus.py: a bounded queue of events, which one task takes out and hands to
-- the handlers of their class. Events, their classes and handlers are parameters; what a handler does
-- is its own matter, and what it raises is caught. A size of 0, which asyncio takes for no limit, is
-- left out.
pub mod Calls
pub mod Orderly
pub mod Delivery
pub mod Subscribed
pub mod Serving
pub mod Served
pub mod Draining
use yuviz.Base.{
  ℕ, zero, suc, ◌+◌, ◌-◌, Bool, true, false, Option, none, some, is_some, List, [], ◌∷◌, ◌++◌,
  length, take, ltb, Eq, if◌then◌else◌,
}
use yuviz.Base.Dict.{insert, get_or}

-- the handler at a place of the list that the loop goes through
abbrev pub get_elem? {ℓ} : {A : Type ℓ} → List A → ℕ → Option A
get_elem? [] n = none
get_elem? (x ∷ xs) zero = some x
get_elem? (x ∷ xs) (suc n) = get_elem? xs n

-- the default of `queue_size`
abbrev pub queue_size : ℕ
queue_size = 256

-- The bus, and what its task waits for: an event, or the handler before a place of the list.
-- `unfinished` is what `asyncio.Queue` counts for `join`.
pub record EventBus (E K H : Type 0) : Type 0 where
  pub maxsize : ℕ
  pub queue : List E
  pub subscribers : List (K × List H)
  pub running : Bool
  pub handling : Option (E × ℕ)
  pub unfinished : ℕ

-- `EventBus.__init__`
abbrev pub init : {E K H : Type 0} → ℕ → EventBus E K H
init maxsize = record {
  maxsize = maxsize;
  queue = [];
  subscribers = [];
  running = false;
  handling = none;
  unfinished = 0;
}

-- what happens to a bus: calls of its methods, and the steps of its task
pub data Action (E K H : Type 0) : Type 0 where
  start stop step : Action E K H
  subscribe : K → H → Action E K H
  publish publish_async : E → Action E K H

-- A bus with its history: the events that the queue took, the same with the handlers that were
-- subscribed to each when the queue took it, those that the task is done with, each with the handlers
-- that it called, and all calls of handlers.
pub record History (E K H : Type 0) : Type 0 where
  pub bus : EventBus E K H
  pub accepted : List E
  pub expected : List (E × List H)
  pub finished : List (E × List H)
  pub delivered : List (H × E)

module _ {E K H : Type 0} ⦃eq : Eq K⦄ (type_of : E → K) where
  -- `self._subscribers.get(type(event), [])`
  abbrev pub handlers_of : EventBus E K H → E → List H
  handlers_of b event = get_or (type_of event) b.subscribers []

  -- `subscribe`
  abbrev pub add_handler : K → H → EventBus E K H → EventBus E K H
  add_handler k h b = record b {
    subscribers = insert k (get_or k b.subscribers [] ++ h ∷ []) b.subscribers;
  }

  -- `put_nowait`, for which there has to be room
  unfoldable pub put : E → History E K H → Option (History E K H)
  put event r =
      if ltb (length r.bus.queue) r.bus.maxsize
      then some (record r {
        bus = record r.bus { queue = r.bus.queue ++ event ∷ []; unfinished = r.bus.unfinished + 1 };
        accepted = r.accepted ++ event ∷ [];
        expected = r.expected ++ (event, handlers_of r.bus event) ∷ [];
      })
      else none

  -- the loop over the handlers at a place: the next is called, or the event is done with
  unfoldable pub hand_over : E → ℕ → History E K H → History E K H
  hand_over event i r =
      let handlers = handlers_of r.bus event in
      elim (get_elem? handlers i) [
        | some handler ↦ record r {
          bus = record r.bus { handling = some (event, suc i) };
          delivered = r.delivered ++ (handler, event) ∷ [];
        }
        | none ↦ record r {
          bus = record r.bus { handling = none; unfinished = r.bus.unfinished - 1 };
          finished = r.finished ++ (event, handlers) ∷ [];
        }
      ]

  -- `_drain_loop` from one await to the next: an event is taken, or a handler has returned
  abbrev pub take_event : List E → History E K H → History E K H
  take_event [] r = r
  take_event (event ∷ queue) r =
      hand_over event 0 (record r { bus = record r.bus { queue = queue } })

  abbrev pub resume : Option (E × ℕ) → History E K H → History E K H
  resume none r = take_event r.bus.queue r
  resume (some (event, i)) r = hand_over event i r

  unfoldable pub drain_step : History E K H → History E K H
  drain_step r = resume r.bus.handling r

  -- `stop`: the task is cancelled, wherever it is
  unfoldable pub cancel_task : History E K H → History E K H
  cancel_task r = elim r.bus.handling [
    | none ↦ record r { bus = record r.bus { running = false } }
    | some (event, i) ↦ record r {
      bus = record r.bus { running = false; handling = none };
      finished = r.finished ++ (event, take i (handlers_of r.bus event)) ∷ [];
    }
  ]

  -- `publish` drops an event for which there is no room, and `publish_async` goes on waiting.
  unfoldable pub act : Action E K H → History E K H → History E K H
  act start r = record r { bus = record r.bus { running = true } }
  act stop r = if r.bus.running then cancel_task r else r
  act step r = if r.bus.running then drain_step r else r
  act (subscribe k h) r = record r { bus = add_handler k h r.bus }
  act (publish event) r = elim (put event r) [ none ↦ r | some after ↦ after ]
  act (publish_async event) r = elim (put event r) [ none ↦ r | some after ↦ after ]

  unfoldable pub run : List (Action E K H) → History E K H → History E K H
  run [] r = r
  run (a ∷ actions) r = run actions (act a r)

  -- a new bus
  abbrev pub fresh : ℕ → History E K H
  fresh maxsize = record {
    bus = init maxsize;
    accepted = [];
    expected = [];
    finished = [];
    delivered = [];
  }
