-- ===== src/Campaigns/Numbers.antt =====
-- services/campaigns/dnc.py: numbers that are the same number.
use yuviz.Base.{
  ℕ, zero, suc, ◌+◌, ◌-◌, ◌≤◌, true, List, [], ◌∷◌, ◌++◌, keep, length, drop, Text, text_eq, ◌≡◌,
  refl, arith, length-drop, beq_refl, keep-append, length-append,
}
use yuviz.Campaigns.{is_digit, normalize_phone, is_blocked}

pub normalize_phone_le : (phone : Text) → length (normalize_phone phone) ≤ 10
unfolding normalize_phone
normalize_phone_le phone =
    ground (arith, length-drop (length (keep is_digit phone) - 10) (keep is_digit phone))

drop-append : (k m : ℕ) (xs ys : Text) → k ≡ length xs + m → drop k (xs ++ ys) ≡ drop m ys
drop-append k m [] ys e = let same : k ≡ m = omega (arith, e) in rw same refl
drop-append zero m (x ∷ xs) ys e = absurd (omega (arith, e))
drop-append (suc k) m (x ∷ xs) ys e = drop-append k m xs ys (omega (arith, e))

-- A prefix before ten digits or more makes no difference: the number is read by its last ten.
pub normalize_phone-prefix :
    (prefix phone : Text)
    → 10 ≤ length (keep is_digit phone)
    → normalize_phone (prefix ++ phone) ≡ normalize_phone phone
unfolding normalize_phone
normalize_phone-prefix prefix phone long =
    let before = keep is_digit prefix in
    let digits = keep is_digit phone in
    let all = length (before ++ digits) in
    rw (keep-append is_digit prefix phone) (
      ground (
        arith,
        long,
        length-append before digits,
        drop-append (all - 10) (length digits - 10) before digits
            (omega (arith, long, length-append before digits)),
      ))

-- A number is blocked if it is on the list, with a prefix or without one, as long as it has ten
-- digits.
pub is_blocked-prefix :
    (prefix phone : Text) (numbers : List Text)
    → 10 ≤ length (keep is_digit phone)
    → is_blocked (phone ∷ numbers) (prefix ++ phone) ≡ true
unfolding is_blocked
is_blocked-prefix prefix phone numbers long =
    rw (normalize_phone-prefix prefix phone long, beq_refl (normalize_phone phone)) refl
