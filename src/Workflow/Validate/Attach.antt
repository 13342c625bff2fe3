-- ===== src/Workflow/Validate/Attach.antt =====
-- The last loop of `_validate_and_build`, which gives each step its connections, changes nothing
-- else of the steps.
use yuviz.Base.{
  ◌≡◌, ◌≢◌, refl, Bool, none, some, List, [], ◌∷◌, keep, any, length, Text, text_eq, All, arith,
  Bool-cases, inl, inr, map,
}
use yuviz.Base.Dict.{lookup, DistinctKeys}
use yuviz.Workflow.Graph.{Node, Edge, Nodes, values}
use yuviz.Workflow.Validate.{attached, attach}
use yuviz.Workflow.Validate.Sound.{AreSteps}
use yuviz.Workflow.Validate.Distinct.{Distinct, step_key}

pub lookup-attach-none :
    (es : List Edge) (k : Text) (ns : Nodes) → lookup k ns ≡ none → lookup k (attach es ns) ≡ none
unfolding attach
lookup-attach-none es k [] h = refl
lookup-attach-none es k ((j, n) ∷ ns) h = ground (arith, h, lookup-attach-none es k ns)

pub lookup-attach-some :
    (es : List Edge) (k : Text) (m : Node) (ns : Nodes)
    → lookup k ns ≡ some m
    → lookup k (attach es ns) ≡ some (attached es m)
unfolding attach
lookup-attach-some es k m [] h = ground arith
lookup-attach-some es k m ((j, n) ∷ ns) h = elim (Bool-cases (text_eq.is_same j k)) [
  | inl y ↦ let same : n ≡ m = ground (arith, y, h) in rw (y, same) refl
  | inr y ↦ rw y (lookup-attach-some es k m ns (ground (arith, y, h)))
]

pub AreSteps-attach : (es : List Edge) (ns : Nodes) → AreSteps ns → AreSteps (attach es ns)
unfolding attach
AreSteps-attach es [] h = tt
AreSteps-attach es ((j, n) ∷ ns) h = (
  record { keyed = h.0.keyed; has_id = h.0.has_id; known = h.0.known; is_named = h.0.is_named },
  AreSteps-attach es ns h.1,
)

pub DistinctKeys-attach :
    (es : List Edge) (ns : Nodes) → DistinctKeys ns → DistinctKeys (attach es ns)
unfolding attach
DistinctKeys-attach es [] h = tt
DistinctKeys-attach es ((j, n) ∷ ns) h =
    (lookup-attach-none es j ns h.0, DistinctKeys-attach es ns h.1)

pub values-attach :
    (es : List Edge) (ns : Nodes) → values (attach es ns) ≡ map (attached es) (values ns)
unfolding attach
values-attach es [] = refl
values-attach es ((j, n) ∷ ns) = rw (values-attach es ns) refl

pub All-attached :
    (P : Node → Type 0) (es : List Edge) (ns : List Node)
    → All (λ n. P (attached es n)) ns
    → All P (map (attached es) ns)
All-attached P es [] h = tt
All-attached P es (n ∷ ns) h = (h.0, All-attached P es ns h.1)

pub Distinct-attached :
    (es : List Edge) (ns : List Node)
    → Distinct step_key ns
    → Distinct step_key (map (attached es) ns)
Distinct-attached es [] h = tt
Distinct-attached es (n ∷ ns) h =
    (All-attached (λ m. step_key m ≢ step_key n) es ns h.0, Distinct-attached es ns h.1)

pub length-keep-attached :
    (p : Node → Bool) (es : List Edge) (ns : List Node)
    → ((n : Node) → p (attached es n) ≡ p n)
    → length (keep p (map (attached es) ns)) ≡ length (keep p ns)
length-keep-attached p es [] h = refl
length-keep-attached p es (n ∷ ns) h = ground (arith, h n, length-keep-attached p es ns h)

pub any-attached :
    (p : Node → Bool) (es : List Edge) (ns : List Node)
    → ((n : Node) → p (attached es n) ≡ p n)
    → any p (map (attached es) ns) ≡ any p ns
any-attached p es [] h = refl
any-attached p es (n ∷ ns) h = rw (h n, any-attached p es ns h) refl
