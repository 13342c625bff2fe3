-- ===== src/Workflow/Available/Guess.antt =====
-- The sets that the loop of `_variables_available_at` in libs/config_sdk/workflow.py starts from.
use yuviz.Base.{
  true, List, [], ◌∷◌, map, Text, text_eq, text_beq_iff, ◌==◌, if◌then◌else◌, ◌≡◌, inl, inr, refl,
  sym, subst, arith, Bool-cases,
}
use yuviz.Workflow.Graph.{WorkflowGraph}
use yuviz.Workflow.Reachable.{has}
use yuviz.Workflow.Available.{
  names_at, declared_by, universe, leaving_with, predecessors, new_in, first_guess,
}
use yuviz.Workflow.Available.Sets.{has-append}
use yuviz.Workflow.Available.Ways.{led_start}
use yuviz.Workflow.Available.Shrinking.{meet_from, universe-has, names_at-map, names_at-insert}
use yuviz.Workflow.Available.Kept.{captured, IsSure, IsReach, IsKept}

module _ (g : WorkflowGraph) (reached : List Text) (r : IsReach g reached) where
  names_at-first_guess :
      (k : Text)
      → names_at (first_guess g reached) k ≡ (
          if g.start_node_id == k
          then []
          else if has reached k
          then universe (declared_by g)
          else [])
  names_at-first_guess k =
      rw
        (
          names_at-insert g.start_node_id k [] (map (λ id. (id, universe (declared_by g))) reached),
          names_at-map (universe (declared_by g)) reached k,
        )
        refl

  first_guess-within :
      (k x : Text)
      → has (names_at (first_guess g reached) k) x ≡ true
      → has (universe (declared_by g)) x ≡ true
  first_guess-within k x = rw (names_at-first_guess k) (λ h. ground (arith, h))

  new_in-within :
      (k x : Text)
      → has (new_in g reached (first_guess g reached) k) x ≡ true
      → has (universe (declared_by g)) x ≡ true
  new_in-within k x h =
      let (p, from) =
        meet_from (leaving_with (declared_by g) (first_guess g reached)) (predecessors g reached k)
          x h in
      let split = has-append (names_at (first_guess g reached) p) (names_at (declared_by g) p) x in
      elim (Bool-cases (has (names_at (declared_by g) p) x)) [
        | inl y ↦ universe-has (declared_by g) p x y
        | inr n ↦ first_guess-within p x (ground (arith, n, from, split))
      ]

  captured-universe :
      (x : Text) (left : List Text)
      → captured g x left ≡ true
      → has (universe (declared_by g)) x ≡ true
  captured-universe x [] h = ground (arith, h)
  captured-universe x (p ∷ left) h = elim (Bool-cases (has (names_at (declared_by g) p) x)) [
    | inl y ↦ universe-has (declared_by g) p x y
    | inr n ↦ captured-universe x left (ground (arith, n, h))
  ]

  pub first_guess-IsKept : IsKept g reached (first_guess g reached)
  first_guess-IsKept = record {
    at_start = λ x.
        rw (names_at-first_guess g.start_node_id)
          (ground (arith, text_beq_iff g.start_node_id g.start_node_id));
    within = first_guess-within;
    closing = λ k x i n h. rw (names_at-first_guess k) (
        ground (
          arith,
          i,
          n,
          text_beq_iff k g.start_node_id,
          text_beq_iff g.start_node_id k,
          new_in-within k x h,
        ));
    sure = λ k x i s. rw (names_at-first_guess k) (elim (Bool-cases (g.start_node_id == k)) [
      | inl y ↦
          let s0 : IsSure g g.start_node_id x =
            subst (λ (j : Text). IsSure g j x) (sym ((text_beq_iff g.start_node_id k).0 y)) s in
          absurd (ground (arith, s0 [] led_start))
      | inr n ↦ let (left, way) = r.led k i in rw (n, i) (captured-universe x left (s left way))
    ]);
  }
