-- ===== src/Config/Chosen.antt =====
-- The rows and the ids that `get_runtime_config` of libs/config_sdk/providers/cache_aside.py goes by.
use yuviz.Base.{
  ℕ, ◌≤◌, Bool, true, false, not, ◌&&◌, leb, text_eq, ◌≡◌, ◌≢◌, ◌↔◌, refl, sym, ap, ◌∙◌, arith,
  Bool-cases, inl, inr, ◌⊎◌, codes, text_beq_iff, if◌then◌else◌,
}
use yuviz.Workflow.Raw.{
  null, boolean, whole, decimal, not_finite, string, array, object, is_truthy, Json, Fields, Python,
  Conversion, converted, refused, overflowed,
}
use yuviz.Config.Rows.{Fetched, found, absent, raised}
use yuviz.Config.{
  transfer_timeout_min_ms, transfer_timeout_default_ms, transfer_timeout_max_ms, int_of_value,
  validate_transfer_timeout_ms, Answer, either_id, is_active, answered, unavailable, fetch,
}

Conversion-cases :
    (c : Conversion)
    → (c ≡ overflowed)
      ⊎ ((c ≡ refused) ⊎ ((negative : Bool) × (n : ℕ) × (c ≡ converted negative n)))
Conversion-cases overflowed = inl refl
Conversion-cases refused = inr (inl refl)
Conversion-cases (converted negative n) = inr (inr (negative, n, refl))

pub timeout_in_bounds :
    (python : Python) (value : Json) (ms : ℕ)
    → validate_transfer_timeout_ms python value ≡ found ms
    → (transfer_timeout_min_ms ≤ ms) × (ms ≤ transfer_timeout_max_ms)
unfolding validate_transfer_timeout_ms
timeout_in_bounds python value ms h = elim (Conversion-cases (int_of_value python value)) [
  | inl over ↦ absurd (ground (arith, over, h))
  | inr (inl unread) ↦
      let same : transfer_timeout_default_ms ≡ ms = ground (arith, unread, h) in
      (omega (arith, same), omega (arith, same))
  | inr (inr (negative, n, read)) ↦
      elim (Bool-cases
        (not negative && leb transfer_timeout_min_ms n && leb n transfer_timeout_max_ms)) [
          | inl fits ↦
              let same : n ≡ ms = ground (arith, read, fits, h) in
              (ground (arith, fits, same), ground (arith, fits, same))
          | inr other ↦
              let same : transfer_timeout_default_ms ≡ ms = ground (arith, read, other, h) in
              (omega (arith, same), omega (arith, same))
        ]
]

-- The row that a look-up gives: the cache's, or the service's, where the cache has none.
abbrev pub Holds : Fields → Fetched Fields → Answer → Type 0
Holds row redis http = (redis ≡ found row) ⊎ ((redis ≡ absent) × (http ≡ answered (found row)))

-- The id of a provider: the agent's own where it is given, and else the tenant's default, if there is
-- one. Python's truth tells whether it is given.
abbrev pub Chosen : Json → Json → Json → Type 0
Chosen own default id =
    ((is_truthy own ≡ true) × (id ≡ own))
    ⊎ ((is_truthy own ≡ false) × (default ≢ null) × (id ≡ default))

pub fetch_iff :
    (redis : Fetched Fields) (http : Answer) (row : Fields)
    → (fetch redis http ≡ found row) ↔ Holds row redis http
unfolding fetch
fetch_iff (found r) http row = ground arith
fetch_iff raised http row = ground arith
fetch_iff absent unavailable row = ground arith
fetch_iff absent (answered row') row = ground arith

-- an id, or the early return of its `None`
abbrev given : Json → Fetched Json
given j = either_id null j

given_iff : (j id : Json) → (given j ≡ found id) ↔ ((j ≢ null) × (id ≡ j))
given_iff null id = (λ h. absurd (ground (arith, h)), λ h. absurd (h.0 refl))
given_iff (boolean b) id = (λ h. ((λ e. cc), cc), λ h. cc)
given_iff (whole negative n) id = (λ h. ((λ e. cc), cc), λ h. cc)
given_iff (decimal is_zero negative n) id = (λ h. ((λ e. cc), cc), λ h. cc)
given_iff (not_finite x) id = (λ h. ((λ e. cc), cc), λ h. cc)
given_iff (string t) id = (λ h. ((λ e. cc), cc), λ h. cc)
given_iff (array items) id = (λ h. ((λ e. cc), cc), λ h. cc)
given_iff (object _) id = (λ h. ((λ e. cc), cc), λ h. cc)

given_of :
    (own default : Json) → either_id own default ≡ given (if is_truthy own then own else default)
given_of own default = refl

pub Chosen-iff :
    (own default id : Json) → (either_id own default ≡ found id) ↔ Chosen own default id
Chosen-iff own default id = elim (Bool-cases (is_truthy own)) [
  | inl y ↦
      let filled : own ≢ null = λ e. ground (arith, e, y) in
      let either = given_iff own id in
      (
        λ h.
            inl
              (y, (either.0 (sym (ap (λ (b : Bool). given (if b then own else default)) y) ∙ h)).1),
        λ c.
            ap (λ (b : Bool). given (if b then own else default)) y
            ∙ either.1 (filled, ground (arith, c, y)),
      )
  | inr n ↦
      let either = given_iff default id in
      (
        λ h.
            let (filled, same) =
              either.0 (sym (ap (λ (b : Bool). given (if b then own else default)) n) ∙ h) in
            inr (n, filled, same),
        λ c. ap (λ (b : Bool). given (if b then own else default)) n ∙ either.1 (default_of c n),
      )
]
  where
    default_of : Chosen own default id → is_truthy own ≡ false → (default ≢ null) × (id ≡ default)
    default_of (inl (y, _)) n = absurd (ground (arith, y, n))
    default_of (inr (_, filled, same)) n = (filled, same)

pub active_iff : (status : Json) → (is_active status ≡ true) ↔ (status ≡ string (codes "active"))
active_iff (string t) = (
  λ h. ap string ((text_beq_iff t (codes "active")).0 h),
  λ e. (text_beq_iff t (codes "active")).1 cc,
)
active_iff null = ground arith
active_iff (boolean b) = ground arith
active_iff (whole negative n) = ground arith
active_iff (decimal is_zero negative n) = ground arith
active_iff (not_finite x) = ground arith
active_iff (array items) = ground arith
active_iff (object _) = ground arith
