-- ===== src/Workflow/Reachable/Least.antt =====
-- `reachable` of libs/config_sdk/workflow.py ends, and finds the steps that can be reached.
use yuviz.Base.{
  ℕ, zero, suc, ◌+◌, ◌≤◌, true, false, some, is_some, List, [], ◌∷◌, length, Text, text_eq,
  text_beq, text_beq_iff, ◌≡◌, refl, sym, ap, subst, arith, All, Bool-cases, Option-cases, inl, inr,
}
use yuviz.Base.Dict.{lookup}
use yuviz.Workflow.Graph.{Node, Edge, Nodes}
use yuviz.Workflow.Reachable.{has, push, reach, edges_left}

length-push :
    (es : List Edge) (stack : List Text) → length (push es stack) ≡ length es + length stack
length-push [] stack = omega arith
length-push (e ∷ es) stack = omega (arith, length-push es (e.target ∷ stack))

All-push :
    (P : Text → Type 0) (es : List Edge) (stack : List Text)
    → All (λ e. P e.target) es
    → All P stack
    → All P (push es stack)
All-push P [] stack h k = k
All-push P (e ∷ es) stack h k = All-push P es (e.target ∷ stack) h.1 (h.0, k)

push-All :
    (P : Text → Type 0) (es : List Edge) (stack : List Text)
    → All P (push es stack)
    → All (λ e. P e.target) es × All P stack
push-All P [] stack h = (tt, h)
push-All P (e ∷ es) stack h =
    let (more, rest) = push-All P es (e.target ∷ stack) h in ((rest.0, more), rest.1)

edges_left-le :
    (id : Text) (seen : List Text) (nodes : Nodes)
    → edges_left (id ∷ seen) nodes ≤ edges_left seen nodes
edges_left-le id seen [] = omega arith
edges_left-le id seen ((k, n) ∷ nodes) = ground (arith, edges_left-le id seen nodes)

edges_left_seen :
    (id : Text) (seen : List Text) (n : Node) (nodes : Nodes)
    → lookup id nodes ≡ some n
    → has seen id ≡ false
    → edges_left (id ∷ seen) nodes + length n.out_edges ≤ edges_left seen nodes
edges_left_seen id seen n [] found new = absurd (ground (arith, found))
edges_left_seen id seen n ((k, m) ∷ nodes) found new = elim (Bool-cases (text_eq.is_same k id)) [
  | inl y ↦
      let key : k ≡ id = ground (arith, text_beq_iff k id, y) in
      let same : m ≡ n = ground (arith, y, found) in
      let counted : length m.out_edges ≡ length n.out_edges =
        ap (λ (o : Node). length o.out_edges) same in
      let new_k : has seen k ≡ false = rw key new in
      let is_id : text_beq id k ≡ true = ground (arith, text_beq_iff id k, key) in
      ground (arith, new_k, is_id, counted, edges_left-le id seen nodes)
  | inr x ↦ ground (arith, x, found, edges_left_seen id seen n nodes, new)
]

-- A set of steps that the connections do not leave.
abbrev pub IsClosed : Nodes → (Text → Type 0) → Type 0
IsClosed nodes P =
    (k : Text) (n : Node) → lookup k nodes ≡ some n → P k → All (λ e. P e.target) n.out_edges

-- What the loop finds from a stack: it ends with all that it had seen, and all of the stack; the
-- connections of what is new lead to what is found; and nothing is found that a closed set that holds
-- the stack lacks.
abbrev pub Finds : Nodes → List Text → List Text → List Text → Type 1
Finds nodes seen stack out =
    ((k : Text) → has seen k ≡ true → has out k ≡ true)
    × All (λ k. has out k ≡ true) stack
    × ((k : Text) (n : Node)
        → has out k ≡ true
        → has seen k ≡ false
        → lookup k nodes ≡ some n
        → All (λ e. has out e.target ≡ true) n.out_edges)
    × ((P : Text → Type 0)
        → IsClosed nodes P
        → All P stack
        → ((k : Text) → has seen k ≡ true → P k)
        → (k : Text) → has out k ≡ true
        → P k)

-- the rounds that are left
abbrev pub rounds : Nodes → List Text → List Text → ℕ
rounds nodes seen stack = length stack + edges_left seen nodes

Finds-skip :
    (nodes : Nodes) (seen : List Text) (id : Text) (stack out : List Text)
    → has seen id ≡ true
    → Finds nodes seen stack out
    → Finds nodes seen (id ∷ stack) out
Finds-skip nodes seen id stack out old (kept, found, closed, least) =
    (kept, (kept id old, found), closed, λ P c h. least P c h.1)

some_same :
    (n m : Node) (nodes : Nodes) (id : Text)
    → lookup id nodes ≡ some n
    → lookup id nodes ≡ some m
    → n ≡ m
some_same n m nodes id h k = ground (arith, h, k)

Finds-visit :
    (nodes : Nodes) (seen : List Text) (id : Text) (n : Node) (stack out : List Text)
    → has seen id ≡ false
    → lookup id nodes ≡ some n
    → Finds nodes (id ∷ seen) (push n.out_edges stack) out
    → Finds nodes seen (id ∷ stack) out
Finds-visit nodes seen id n stack out new at (kept, found, closed, least) =
    let (targets, rest) = push-All (λ k. has out k ≡ true) n.out_edges stack found in
    (
      (λ k h. kept k (ground (arith, h))),
      (kept id (ground (arith, text_beq_iff id id)), rest),
      (λ k m out_k not_seen at_k. elim (Bool-cases (text_beq id k)) [
        | inl y ↦
            let key : id ≡ k = ground (arith, text_beq_iff id k, y) in
            let same : n ≡ m =
              some_same n m nodes id at
                (subst (λ (j : Text). lookup j nodes ≡ some m) (sym key) at_k) in
            subst (λ (o : Node). All (λ e. has out e.target ≡ true) o.out_edges) same targets
        | inr x ↦ closed k m out_k (ground (arith, x, not_seen)) at_k
      ]),
      (λ P c h old k out_k.
          least P c (All-push P n.out_edges stack (c id n at h.0) h.1)
            (λ j seen_j. elim (Bool-cases (text_beq id j)) [
              | inl y ↦ let key : id ≡ j = ground (arith, text_beq_iff id j, y) in subst P key h.0
              | inr x ↦ old j (ground (arith, x, seen_j))
            ])
            k out_k),
    )

reach_end : (fuel : ℕ) (nodes : Nodes) (seen : List Text) → reach fuel nodes seen [] ≡ some seen
unfolding reach
reach_end zero nodes seen = refl
reach_end (suc fuel) nodes seen = refl

pub reach-Finds :
    (fuel : ℕ) (nodes : Nodes) (seen stack : List Text)
    → IsClosed nodes (λ k. is_some (lookup k nodes) ≡ true)
    → All (λ k. is_some (lookup k nodes) ≡ true) stack
    → rounds nodes seen stack ≤ fuel
    → (out : List Text) × (reach fuel nodes seen stack ≡ some out) × Finds nodes seen stack out
unfolding reach
reach-Finds fuel nodes seen [] known held enough = (
  seen,
  reach_end fuel nodes seen,
  (
    (λ k h. h),
    tt,
    (λ k n yes no at. absurd (ground (arith, yes, no))),
    λ P c h old k out_k. old k out_k,
  ),
)
reach-Finds zero nodes seen (id ∷ stack) known held enough = absurd (omega (arith, enough))
reach-Finds (suc fuel) nodes seen (id ∷ stack) known held enough = elim (Bool-cases (has seen id)) [
  | inl old ↦
      let (out, done, finds) =
        reach-Finds fuel nodes seen stack known held.1 (omega (arith, enough)) in
      (out, rw (reach, old) done, Finds-skip nodes seen id stack out old finds)
  | inr new ↦ elim (Option-cases (lookup id nodes)) [
    | inl missing ↦ absurd (ground (arith, missing, held.0))
    | inr (n, at) ↦
        let (out, done, finds) =
          reach-Finds fuel nodes (id ∷ seen) (push n.out_edges stack) known
            (All-push (λ k. is_some (lookup k nodes) ≡ true) n.out_edges stack
              (known id n at held.0) held.1)
            (omega (
              arith,
              enough,
              length-push n.out_edges stack,
              edges_left_seen id seen n nodes at new,
            )) in
        (out, rw (reach, new, at) done, Finds-visit nodes seen id n stack out new at finds)
  ]
]
