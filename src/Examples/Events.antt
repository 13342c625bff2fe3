-- ===== src/Examples/Events.antt =====
-- The bus of events at small inputs.
use yuviz.Base.{ℕ, ◌≤◌, true, List, [], ◌∷◌, nat_eq, ◌≡◌, refl, arith}
use yuviz.Events.{
  Action, start, step, subscribe, publish, run, fresh, act, put, drain_step, hand_over, handlers_of,
}
use yuviz.Events.Calls.{all_calls, events_of}
use yuviz.Events.Orderly.{IsOrderly}
use yuviz.Events.Serving.{Served, Serves}
use yuviz.Events.Subscribed.{subscribed}
use yuviz.Events.Served.{run-IsServing}
use yuviz.Events.Draining.{work, steps, steps_deliver_all}

-- Events are numbers, and their class is the number.
abbrev class_of : ℕ → ℕ
class_of event = event

-- a queue of one: the third event is dropped
abbrev actions : List (Action ℕ ℕ ℕ)
actions = subscribe 7 1 ∷ subscribe 7 2 ∷ start ∷ publish 7 ∷ step ∷ publish 7 ∷ publish 7 ∷ []

run-IsServing_example :
    IsOrderly class_of (run class_of actions (fresh class_of 1))
    × ((m : ℕ) × (m ≤ 0) × Serves class_of m (run class_of actions (fresh class_of 1)))
    × ((event : ℕ)
        → handlers_of class_of (run class_of actions (fresh class_of 1)).bus event
          ≡ subscribed class_of event actions)
run-IsServing_example = run-IsServing class_of 1 actions

is_running : (run class_of actions (fresh class_of 1)).bus.running ≡ true
unfolding run act put drain_step hand_over
is_running = refl

is_enough : work class_of (run class_of actions (fresh class_of 1)).bus ≤ 6
unfolding run act put drain_step hand_over
is_enough = omega arith

steps_deliver_all_example :
    let after = run class_of (steps 6) (run class_of actions (fresh class_of 1)) in
    (after.accepted ≡ events_of after.expected)
    × ((m : ℕ) × (m ≤ 0) × Served m after.expected after.finished)
    × (after.delivered ≡ all_calls after.finished)
steps_deliver_all_example = steps_deliver_all class_of 1 actions 6 is_running is_enough
