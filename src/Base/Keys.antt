-- ===== src/Base/Keys.antt =====
-- Equality of keys as an interface, and its instances: numbers, texts and strings.
-- A text that the program walks is the list of its code points.
use Prim.Native.Nat.{ℕ}
use Prim.Native.Char.{code}
use Prim.Native.String.{String}
use mathlib.Core.Path.{◌≡◌, refl}
use mathlib.Core.Logic.{◌↔◌, ◌≢◌}
use mathlib.Core.Bool.{Bool, true, false, ◌&&◌}
use mathlib.Core.List.{List, [], ◌∷◌}
use native.Mathlib.Omega.{arith}
use text.Mathlib.Text.{◌==◌ as str_eq}
use text.Mathlib.TextEquality.{eq_iff}
use yuviz.Base.Tests.{nat_beq, nat_beq_iff}

-- A type whose values can be keys of a dictionary: a test that is true of equal values only.
pub record Eq {ℓ} (K : Type ℓ) : Type ℓ where
  pub is_same : K → K → Bool
  pub is_same_iff : (k j : K) → (is_same k j ≡ true) ↔ (k ≡ j)

abbrev pub Text : Type 0
Text = List ℕ

abbrev pub text_beq : Text → Text → Bool
text_beq [] [] = true
text_beq (x ∷ xs) (y ∷ ys) = nat_beq x y && text_beq xs ys
text_beq _ _ = false

pub text_beq_iff : (s t : Text) → (text_beq s t ≡ true) ↔ (s ≡ t)
text_beq_iff [] [] = ground arith
text_beq_iff [] (y ∷ t) = ground arith
text_beq_iff (x ∷ s) [] = ground arith
text_beq_iff (x ∷ s) (y ∷ t) = ground (arith, text_beq_iff s t)

-- The code points of a literal.
abbrev pub codes : String → Text
codes String.[] = []
codes (String.◌∷◌ c s) = code c ∷ codes s

instance abbrev pub nat_eq : Eq ℕ
nat_eq = record { is_same = nat_beq; is_same_iff = nat_beq_iff }

instance abbrev pub text_eq : Eq Text
text_eq = record { is_same = text_beq; is_same_iff = text_beq_iff }

instance abbrev pub string_eq : Eq String
string_eq = record { is_same = str_eq; is_same_iff = eq_iff }

pub is_same-pair {ℓ} :
    {K J : Type ℓ} ⦃e : Eq K⦄ ⦃f : Eq J⦄ (p q : K × J)
    → (e.is_same p.0 q.0 && f.is_same p.1 q.1 ≡ true) ↔ (p ≡ q)
is_same-pair ⦃e⦄ ⦃f⦄ (a, b) (c, d) = ground (arith, e.is_same_iff a c, f.is_same_iff b d)

instance abbrev pub pair_eq {ℓ} : {K J : Type ℓ} ⦃e : Eq K⦄ ⦃f : Eq J⦄ → Eq (K × J)
pair_eq ⦃e⦄ ⦃f⦄ = record {
  is_same = λ p q. e.is_same p.0 q.0 && f.is_same p.1 q.1;
  is_same_iff = is_same-pair;
}

-- The test of the type, written between two keys.
infix 50 ◌==◌
abbrev pub ◌==◌ {ℓ} : {K : Type ℓ} ⦃test : Eq K⦄ → K → K → Bool
◌==◌ ⦃test⦄ = test.is_same

pub beq_refl {ℓ} : {K : Type ℓ} ⦃test : Eq K⦄ (k : K) → test.is_same k k ≡ true
beq_refl ⦃test⦄ k = (test.is_same_iff k k).1 refl

pub beq_false {ℓ} : {K : Type ℓ} ⦃test : Eq K⦄ (k j : K) → k ≢ j → test.is_same k j ≡ false
beq_false ⦃test⦄ k j other = ground (arith, other, test.is_same_iff k j)
