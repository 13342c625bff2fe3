-- ===== src/Workflow/Available/Exact.antt =====
-- What `_variables_available_at` of libs/config_sdk/workflow.py finds: the variables that are captured
-- on every way.
use yuviz.Base.{
  suc, ◌*◌, Bool, true, false, some, List, [], ◌∷◌, ◌++◌, length, Text, text_eq, text_beq_iff, ◌==◌,
  if◌then◌else◌, ◌≡◌, ◌↔◌, inl, inr, refl, sym, ◌∙◌, subst, arith, Bool-cases,
}
use yuviz.Workflow.Graph.{WorkflowGraph}
use yuviz.Workflow.Validate.WellFormed.{IsWellFormed}
use yuviz.Workflow.Reachable.{has, reachable}
use yuviz.Workflow.Reachable.Checked.{reachable-IsClosed}
use yuviz.Workflow.Available.{
  NameSets, names_at, declared_by, universe, leaving_with, predecessors, new_in, first_guess,
  while_changed, variables_available_at,
}
use yuviz.Workflow.Available.Sets.{has-append, same_set-has}
use yuviz.Workflow.Available.Ways.{Leads, led_start, led_move, IsLed, IsLed-closed, Leads-closed}
use yuviz.Workflow.Available.Rounds.{IsStable, settle_ends}
use yuviz.Workflow.Available.Shrinking.{each_of_meet, size_of, size_of_bound}
use yuviz.Workflow.Available.Guess.{first_guess-IsKept}
use yuviz.Workflow.Available.Kept.{
  captured, IsSure, IsReach, IsKept, has-predecessors, next-IsKept, next-smaller,
}

module _ (g : WorkflowGraph) (reached : List Text) (w : IsWellFormed g)
    (r : IsReach g reached) where
  -- Where nothing changes, a variable that is available is captured on every way.
  stable-IsSure :
      (a : NameSets) {left : List Text} (k x : Text)
      → IsKept g reached a
      → IsStable g reached a
      → Leads g left k
      → has (names_at a k) x ≡ true
      → captured g x left ≡ true
  stable-IsSure a _ x kept stable led_start h = ground (arith, h, kept.at_start x)
  stable-IsSure a _ x kept stable (led_move p k n way known goes) h =
      elim (Bool-cases (k == g.start_node_id)) [
        | inl y ↦
            let none_there : has (names_at a k) x ≡ false =
              subst (λ (j : Text). has (names_at a j) x ≡ false)
                (sym ((text_beq_iff k g.start_node_id).0 y)) (kept.at_start x) in
            ground (arith, h, none_there)
        | inr other ↦
            let inside =
              Leads-closed g (λ j. has reached j ≡ true) r.closed r.start
                (led_move p k n way known goes) in
            let same =
              same_set-has (new_in g reached a k) (names_at a k) x (stable k inside other) in
            let from =
              each_of_meet (leaving_with (declared_by g) a) (predecessors g reached k) x (same ∙ h)
                p (has-predecessors g reached w r k p n way known goes) in
            elim (Bool-cases (has (names_at (declared_by g) p) x)) [
              | inl y ↦ ground (arith, y)
              | inr m ↦
                  let earlier : has (names_at a p) x ≡ true =
                    ground
                      (arith, m, from, has-append (names_at a p) (names_at (declared_by g) p) x) in
                  ground (arith, stable-IsSure a p x kept stable way earlier)
            ]
      ]

  settles :
      (a : NameSets) × (while_changed g reached
          (suc (length reached * length (universe (declared_by g))))
          (first_guess g reached)
        ≡ some a)
      × IsKept g reached a
      × IsStable g reached a
  settles =
      settle_ends g reached (IsKept g reached) (size_of (universe (declared_by g)) reached)
        (λ a k inside n other kept. (
          next-IsKept g reached w r a k inside n kept,
          next-smaller g reached w r a k inside n kept other,
        ))
        (suc (length reached * length (universe (declared_by g)))) (first_guess g reached)
        (first_guess-IsKept g reached r)
        (omega (arith, size_of_bound (universe (declared_by g)) reached (first_guess g reached)))

-- With what the step itself captures.
own_iff :
    (g : WorkflowGraph) (k x : Text) (a : NameSets)
    → ((has (names_at a k) x ≡ true) ↔ IsSure g k x)
    → (has (names_at a k ++ names_at (declared_by g) k) x ≡ true)
      ↔ ((left : List Text) → Leads g left k → captured g x (k ∷ left) ≡ true)
own_iff g k x a exact =
    let split = has-append (names_at a k) (names_at (declared_by g) k) x in
    elim (Bool-cases (has (names_at (declared_by g) k) x)) [
      | inl y ↦ rw split (λ h left way. ground (arith, y), λ s. ground (arith, y))
      | inr n ↦ rw split (
        λ h left way. ground (arith, n, exact.0 (ground (arith, n, h)) left way),
        λ s. ground (arith, exact.1 (λ left way. ground (arith, n, s left way))),
      )
    ]

pub reachable-IsReach :
    (g : WorkflowGraph)
    → IsWellFormed g
    → (reached : List Text) × (reachable g ≡ some reached) × IsReach g reached
reachable-IsReach g w =
    let (reached, done, start, closed, least) = reachable-IsClosed g w in
    (
      reached,
      done,
      record {
        start = start;
        closed = closed;
        led = least (IsLed g) (IsLed-closed g) ([], led_start);
      },
    )

-- On a well-formed graph the search for the variables of a step that can be reached ends without an
-- error. It finds a variable exactly if each way from the starting point to the step captures it: on
-- entering, with what the steps before it capture when they are left; on leaving, with its own too.
pub variables_available_at_iff :
    (g : WorkflowGraph) (k : Text) (leaving : Bool) (way : List Text)
    → IsWellFormed g
    → Leads g way k
    → (out : List Text) × (variables_available_at g k leaving ≡ some out)
      × ((x : Text)
          → (has out x ≡ true) ↔ (
              (left : List Text)
              → Leads g left k
              → captured g x (if leaving then k ∷ left else left) ≡ true))
unfolding variables_available_at
variables_available_at_iff g k leaving way w led =
    let (reached, done, r) = reachable-IsReach g w in
    let (a, settled, kept, stable) = settles g reached w r in
    let inside = Leads-closed g (λ j. has reached j ≡ true) r.closed r.start led in
    let exact : (x : Text) → (has (names_at a k) x ≡ true) ↔ IsSure g k x = λ x.
      (λ h left way. stable-IsSure g reached w r a k x kept stable way h, kept.sure k x inside) in
    elim (Bool-cases leaving) [
      | inl y ↦ rw y (
        names_at a k ++ names_at (declared_by g) k,
        rw (variables_available_at, done, inside, settled) refl,
        λ x. own_iff g k x a (exact x),
      )
      | inr n ↦ rw n (names_at a k, rw (variables_available_at, done, inside, settled) refl, exact)
    ]
