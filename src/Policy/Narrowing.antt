-- ===== src/Policy/Narrowing.antt =====
-- `_narrow` of policy_resolver.py.
use mathlib.Core.List.{Sublist, nil-sublist}
use mathlib.Core.List.Sublist
use yuviz.Base.{
  String, ◌≡◌, ap, refl, Bool, Option, none, ◌∙◌, ◌||◌, ◌&&◌, some, List, [], ◌∷◌, ◌++◌, any, keep,
  ◌==◌, string_eq, keep-keep, arith, Bool-cases, inl, inr,
}
use yuviz.Policy.{
  ResolvedToolPolicy, tool_name_of, contains, allow_companions, auto_derived_companions, narrow,
}

module _ {ℓ} {A : Type ℓ} where
  keep-sublist : (p : A → Bool) (xs : List A) → Sublist (keep p xs) xs
  keep-sublist p [] = nil-sublist []
  keep-sublist p (x ∷ xs) = elim (Bool-cases (p x)) [
    | inl y ↦ rw y (Sublist.cons-cons x (keep-sublist p xs))
    | inr n ↦ rw n (Sublist.cons x (keep-sublist p xs))
  ]

  pub any-append : (p : A → Bool) (xs ys : List A) → any p (xs ++ ys) ≡ (any p xs || any p ys)
  any-append p [] ys = refl
  any-append p (x ∷ xs) ys = ground (arith, any-append p xs ys)

-- Some policy has the name.
abbrev pub has_tool : String → List ResolvedToolPolicy → Bool
has_tool name ps = any (λ p. tool_name_of p == name) ps

any-keep_name :
    (allowed : String → Bool) (name : String) (ps : List ResolvedToolPolicy)
    → has_tool name (keep (λ p. allowed (tool_name_of p)) ps) ≡ (has_tool name ps && allowed name)
any-keep_name allowed name [] = refl
any-keep_name allowed name (p ∷ ps) =
    ground (arith, any-keep_name allowed name ps, string_eq.is_same_iff (tool_name_of p) name)

allowed_lem :
    (only : List String) (name : String)
    → contains (allow_companions auto_derived_companions only) name ≡ (
        contains only name
        || (contains only "book_appointment"
            && ("cancel_appointment" == name || "reschedule_appointment" == name)))
unfolding allow_companions
allowed_lem only name = ground (
  arith,
  any-append (λ (n : String). n == name) only
      ("cancel_appointment" ∷ "reschedule_appointment" ∷ []),
)

-- Narrowing only drops policies and keeps the order: it never grants a tool.
pub narrow-sublist :
    (resolved : List ResolvedToolPolicy) (only : Option (List String))
    → Sublist (narrow resolved only) resolved
unfolding narrow
narrow-sublist resolved none = Sublist.refl resolved
narrow-sublist resolved (some only) = keep-sublist _ resolved

-- A tool is left exactly if it was resolved and is either named, or a companion of a named
-- `book_appointment`; so an empty list leaves none.
pub has_tool-narrow :
    (resolved : List ResolvedToolPolicy) (only : List String) (name : String)
    → has_tool name (narrow resolved (some only)) ≡ (
        has_tool name resolved
        && (contains only name
            || (contains only "book_appointment"
                && ("cancel_appointment" == name || "reschedule_appointment" == name))))
unfolding narrow
has_tool-narrow resolved only name =
    any-keep_name (contains (allow_companions auto_derived_companions only)) name resolved
    ∙ ap (λ (b : Bool). has_tool name resolved && b) (allowed_lem only name)

-- Narrowing again by the same names changes nothing.
pub narrow-narrow :
    (resolved : List ResolvedToolPolicy) (only : Option (List String))
    → narrow (narrow resolved only) only ≡ narrow resolved only
unfolding narrow
narrow-narrow resolved none = refl
narrow-narrow resolved (some only) = keep-keep _ resolved
