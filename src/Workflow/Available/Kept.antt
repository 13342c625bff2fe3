-- ===== src/Workflow/Available/Kept.antt =====
-- What every round of `_variables_available_at` in libs/config_sdk/workflow.py keeps.
use yuviz.Base.{
  ◌<◌, Bool, true, false, some, List, ◌∷◌, any, Text, text_eq, text_beq_iff, ◌==◌, ◌≡◌, inl, inr,
  refl, sym, subst, arith, Bool-cases,
}
use yuviz.Base.Dict.{lookup, insert}
use yuviz.Workflow.Graph.{Node, WorkflowGraph, values}
use yuviz.Workflow.Validate.WellFormed.{IsWellFormed}
use yuviz.Workflow.Reachable.{has}
use yuviz.Workflow.Reachable.Least.{IsClosed}
use yuviz.Workflow.Available.{
  NameSets, names_at, declared_by, incoming, universe, same_set, leaving_with, predecessors, new_in,
}
use yuviz.Workflow.Available.Sets.{has-append, has-keep, held_lt}
use yuviz.Workflow.Available.Ways.{
  Leads, led_start, led_move, goes_to, IsLed, incoming-IsPredecessor, Leads-closed,
}
use yuviz.Workflow.Available.Shrinking.{
  has-meet, meet_part, names_at-insert, size_of, IsPart, size_of-lt,
}

-- whether a step of the way captures the variable when it is left
abbrev pub captured : WorkflowGraph → Text → List Text → Bool
captured g x = any (λ p. has (names_at (declared_by g) p) x)

-- The variable is captured on every way to the step.
abbrev pub IsSure : WorkflowGraph → Text → Text → Type 0
IsSure g k x = (left : List Text) → Leads g left k → captured g x left ≡ true

-- the steps that are found are those that a way leads to
pub record IsReach (g : WorkflowGraph) (reached : List Text) : Type 0 where
  pub start : has reached g.start_node_id ≡ true
  pub closed : IsClosed g.nodes (λ k. has reached k ≡ true)
  pub led : (k : Text) → has reached k ≡ true → IsLed g k

module _ (g : WorkflowGraph) (reached : List Text) where
  -- The sets lie within all the names, and a round can only take names away; no name is taken away
  -- that is captured on every way.
  pub record IsKept (a : NameSets) : Type 0 where
    pub at_start : (x : Text) → has (names_at a g.start_node_id) x ≡ false
    pub within :
        (k x : Text) → has (names_at a k) x ≡ true → has (universe (declared_by g)) x ≡ true
    pub closing :
        (k x : Text)
        → has reached k ≡ true
        → (k == g.start_node_id) ≡ false
        → has (new_in g reached a k) x ≡ true
        → has (names_at a k) x ≡ true
    pub sure : (k x : Text) → has reached k ≡ true → IsSure g k x → has (names_at a k) x ≡ true

  module _ (w : IsWellFormed g) (r : IsReach g reached) where
    sure_ahead :
        (k p x : Text) (a : NameSets)
        → IsKept a
        → IsSure g k x
        → has (predecessors g reached k) p ≡ true
        → has (leaving_with (declared_by g) a p) x ≡ true
    sure_ahead k p x a kept s h =
        let found : has (incoming (values g.nodes) k) p ≡ true =
          ground (arith, h, has-keep (has reached) (incoming (values g.nodes) k) p) in
        let inside : has reached p ≡ true =
          ground (arith, h, has-keep (has reached) (incoming (values g.nodes) k) p) in
        let (n, known, goes) = (incoming-IsPredecessor g k p w).0 found in
        rw (has-append (names_at a p) (names_at (declared_by g) p) x)
          (elim (Bool-cases (has (names_at (declared_by g) p) x)) [
            | inl y ↦ ground (arith, y)
            | inr m ↦
                let earlier : IsSure g p x =
                  λ left way. ground (arith, m, s (p ∷ left) (led_move p k n way known goes)) in
                ground (arith, kept.sure p x inside earlier)
          ])

    -- The steps of a way are predecessors.
    pub has-predecessors :
        (k p : Text) (n : Node) {left : List Text}
        → Leads g left p
        → lookup p g.nodes ≡ some n
        → goes_to k n.out_edges ≡ true
        → has (predecessors g reached k) p ≡ true
    has-predecessors k p n way known goes =
        let found = (incoming-IsPredecessor g k p w).1 (n, known, goes) in
        let inside = Leads-closed g (λ j. has reached j ≡ true) r.closed r.start way in
        rw (has-keep (has reached) (incoming (values g.nodes) k) p, found, inside) refl

    some_predecessor :
        (k : Text) {left : List Text}
        → Leads g left k
        → (k == g.start_node_id) ≡ false
        → (p : Text) × (has (predecessors g reached k) p ≡ true)
    some_predecessor _ led_start n =
        absurd (ground (arith, n, text_beq_iff g.start_node_id g.start_node_id))
    some_predecessor _ (led_move p k m way known goes) n =
        (p, has-predecessors k p m way known goes)

    -- What is captured on every way to a step is in its new set.
    sure-new_in :
        (k x : Text) (a : NameSets)
        → IsKept a
        → has reached k ≡ true
        → (k == g.start_node_id) ≡ false
        → IsSure g k x
        → has (new_in g reached a k) x ≡ true
    sure-new_in k x a kept inside n s =
        let (left, way) = r.led k inside in
        let (q, h) = some_predecessor k way n in
        has-meet (leaving_with (declared_by g) a) (predecessors g reached k) x q h
          (λ p k_p. sure_ahead k p x a kept s k_p)

    module _ (a : NameSets) (k : Text) (inside : has reached k ≡ true)
        (n : (k == g.start_node_id) ≡ false) (kept : IsKept a) where
      abbrev next : NameSets
      next = insert k (new_in g reached a k) a

      next-IsPart : IsPart next a
      next-IsPart j x =
          rw (names_at-insert k j (new_in g reached a k) a) (elim (Bool-cases (k == j)) [
            | inl y ↦ λ h.
                let same : k ≡ j = (text_beq_iff k j).0 y in
                subst (λ (i : Text). has (names_at a i) x ≡ true) same
                  (kept.closing k x inside n (ground (arith, y, h)))
            | inr m ↦ λ h. ground (arith, m, h)
          ])

      next-new_in :
          (j x : Text)
          → has (new_in g reached next j) x ≡ true
          → has (new_in g reached a j) x ≡ true
      next-new_in j x =
          meet_part (leaving_with (declared_by g) next) (leaving_with (declared_by g) a)
            (predecessors g reached j) x
            (λ p h.
              let split = has-append (names_at next p) (names_at (declared_by g) p) x in
              rw (has-append (names_at a p) (names_at (declared_by g) p) x)
                (ground (arith, h, split, next-IsPart p x)))

      pub next-IsKept : IsKept next
      next-IsKept = record {
        at_start = λ x.
            rw (names_at-insert k g.start_node_id (new_in g reached a k) a, n) (kept.at_start x);
        within = λ j x h. kept.within j x (next-IsPart j x h);
        closing = λ j x i m h.
            rw (names_at-insert k j (new_in g reached a k) a) (elim (Bool-cases (k == j)) [
              | inl y ↦ rw y (
                  subst (λ (i : Text). has (new_in g reached a i) x ≡ true)
                    (sym ((text_beq_iff k j).0 y)) (next-new_in j x h))
              | inr o ↦ rw o (kept.closing j x i m (next-new_in j x h))
            ]);
        sure = λ j x i s.
            rw (names_at-insert k j (new_in g reached a k) a) (elim (Bool-cases (k == j)) [
              | inl y ↦ rw y (
                  sure-new_in k x a kept inside n
                    (subst (λ (i : Text). IsSure g i x) (sym ((text_beq_iff k j).0 y)) s))
              | inr o ↦ rw o (kept.sure j x i s)
            ]);
      }

      pub next-smaller :
          same_set (new_in g reached a k) (names_at a k) ≡ false
          → size_of (universe (declared_by g)) reached next
            < size_of (universe (declared_by g)) reached a
      next-smaller other =
          size_of-lt (universe (declared_by g)) reached next a k next-IsPart inside (
            rw (names_at-insert k k (new_in g reached a k) a, (text_beq_iff k k).1 refl)
              (held_lt (universe (declared_by g)) (new_in g reached a k) (names_at a k)
                (λ x. kept.closing k x inside n) (kept.within k) other))
