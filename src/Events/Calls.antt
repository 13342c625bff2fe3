-- ===== src/Events/Calls.antt =====
-- Lists of calls of handlers, for services/conversation/event_bus.py.
use yuviz.Base.{
  ℕ, zero, suc, ◌≤◌, Option, none, some, List, [], ◌∷◌, ◌++◌, length, append-nil, append_assoc,
  take, map, ◌≡◌, refl, sym, ap, ◌∙◌, arith,
}
use yuviz.Events.{get_elem?}

-- what it is to hand an event to handlers, one after the other
abbrev pub calls_of : {E H : Type 0} → E → List H → List (H × E)
calls_of event handlers = map (λ h. (h, event)) handlers

abbrev pub all_calls : {E H : Type 0} → List (E × List H) → List (H × E)
all_calls [] = []
all_calls ((event, handlers) ∷ finished) = calls_of event handlers ++ all_calls finished

abbrev pub events_of : {E H : Type 0} → List (E × List H) → List E
events_of [] = []
events_of ((event, _) ∷ finished) = event ∷ events_of finished

abbrev pub in_hand : {E : Type 0} → Option (E × ℕ) → List E
in_hand none = []
in_hand (some (event, _)) = event ∷ []

pub calls_of-append :
    {E H : Type 0} (event : E) (hs more : List H)
    → calls_of event (hs ++ more) ≡ calls_of event hs ++ calls_of event more
calls_of-append event [] more = refl
calls_of-append event (h ∷ hs) more = ap (λ ys. (h, event) ∷ ys) (calls_of-append event hs more)

pub all_calls-append :
    {E H : Type 0} (xs : List (E × List H)) (event : E) (handlers : List H)
    → all_calls (xs ++ (event, handlers) ∷ []) ≡ all_calls xs ++ calls_of event handlers
all_calls-append [] event handlers = append-nil (calls_of event handlers)
all_calls-append ((e, hs) ∷ xs) event handlers =
    ap (λ ys. calls_of e hs ++ ys) (all_calls-append xs event handlers)
    ∙ sym (append_assoc (calls_of e hs) (all_calls xs) (calls_of event handlers))

pub events_of-append :
    {E H : Type 0} (xs : List (E × List H)) (event : E) (handlers : List H)
    → events_of (xs ++ (event, handlers) ∷ []) ≡ events_of xs ++ event ∷ []
events_of-append [] event handlers = refl
events_of-append ((e, hs) ∷ xs) event handlers =
    ap (λ ys. e ∷ ys) (events_of-append xs event handlers)

module _ {A : Type 0} where
  some_is : (x y : A) → some x ≡ some y → x ≡ y
  some_is x y h = cc

  pub take-next :
      (xs : List A) (i : ℕ) (x : A)
      → get_elem? xs i ≡ some x
      → take (suc i) xs ≡ take i xs ++ x ∷ []
  take-next [] i x h = absurd (ground (arith, h))
  take-next (y ∷ xs) zero x h = ap (λ z. z ∷ []) (some_is y x h)
  take-next (y ∷ xs) (suc i) x h = ap (λ ys. y ∷ ys) (take-next xs i x h)

  pub next_within : (xs : List A) (i : ℕ) (x : A) → get_elem? xs i ≡ some x → suc i ≤ length xs
  next_within [] i x h = absurd (ground (arith, h))
  next_within (y ∷ xs) zero x h = omega arith
  next_within (y ∷ xs) (suc i) x h = omega (arith, next_within xs i x h)

  pub past_end : (xs : List A) (i : ℕ) → get_elem? xs i ≡ none → length xs ≤ i
  past_end [] i h = omega arith
  past_end (y ∷ xs) zero h = absurd (ground (arith, h))
  past_end (y ∷ xs) (suc i) h = omega (arith, past_end xs i h)

  pub take-all : (xs : List A) (i : ℕ) → get_elem? xs i ≡ none → take i xs ≡ xs
  take-all [] zero h = refl
  take-all [] (suc i) h = refl
  take-all (y ∷ xs) zero h = absurd (ground (arith, h))
  take-all (y ∷ xs) (suc i) h = ap (λ ys. y ∷ ys) (take-all xs i h)

  pub take-append : (xs ys : List A) (i : ℕ) → i ≤ length xs → take i (xs ++ ys) ≡ take i xs
  take-append xs ys zero h = refl
  take-append [] ys (suc i) h = absurd (omega (arith, h))
  take-append (x ∷ xs) ys (suc i) h = ap (λ zs. x ∷ zs) (take-append xs ys i (omega (arith, h)))
