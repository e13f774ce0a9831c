-- ===== src/Common/Decimal.antt =====
-- The template string `${text}:${number}` names one text and one number.
use Prim.Native.Nat.{ℕ, zero, suc, ◌+◌, ◌-◌, ◌*◌, ◌/◌, ◌%◌, ◌<◌}
use mathlib.Core.Path.{◌≡◌, refl, sym, ap, ◌∙◌}
use mathlib.Core.Bool.{true, false}
use mathlib.Core.List.{
  [], ◌∷◌, ◌++◌, reverse, reverse-append, reverse-reverse, reverse-cons, append_assoc,
}
use native.Mathlib.Omega.{arith}
use tor_e2ee_messenger.Common.Tests.{leb, nat_eq, if◌then◌else◌}
use tor_e2ee_messenger.Common.Lists.{All}
use tor_e2ee_messenger.Common.Texts.{Text}

-- The decimal digits of a number, the last digit first; the fuel bounds the digits.
decimal_from : ℕ → ℕ → Text
decimal_from zero n = []
decimal_from (suc f) n = elim (leb 10 n) [
  | true ↦ (48 + n % 10) ∷ decimal_from f (n / 10)
  | false ↦ (48 + n) ∷ []
]

decimal_rev : ℕ → Text
unfolding decimal_from
decimal_rev n = decimal_from (suc n) n

undecimal : Text → ℕ
undecimal [] = 0
undecimal (c ∷ s) = (c - 48) + 10 * undecimal s

undecimal-from : (f n : ℕ) → n < f → undecimal (decimal_from f n) ≡ n
unfolding undecimal decimal_from
undecimal-from zero n h = absurd (omega arith)
undecimal-from (suc f) n h = ground (arith, undecimal-from f (n / 10))

-- `String(n)`.
unfoldable pub decimal : ℕ → Text
unfolding decimal_rev
decimal n = reverse (decimal_rev n)

abbrev colon : ℕ
colon = 58

unfoldable pub with_number : Text → ℕ → Text
unfolding decimal
with_number t n = t ++ colon ∷ decimal n

-- What stands before the first colon, and what after it.
before : Text → Text
before [] = []
before (c ∷ s) = let rest = before s in if nat_eq c colon then [] else c ∷ rest

after : Text → Text
after [] = []
after (c ∷ s) = let rest = after s in if nat_eq c colon then s else rest

abbrev IsDigits : Text → Type 0
IsDigits = All (λ c. c < 58)

decimal_from-IsDigits : (f n : ℕ) → IsDigits (decimal_from f n)
unfolding decimal_from
decimal_from-IsDigits zero n = tt
decimal_from-IsDigits (suc f) n = ground (arith, decimal_from-IsDigits f (n / 10))

before-append : (d t : Text) → IsDigits d → before (d ++ colon ∷ t) ≡ d
unfolding before
before-append [] t h = refl
before-append (c ∷ d) t h = ground (arith, before-append d t)

after-append : (d t : Text) → IsDigits d → after (d ++ colon ∷ t) ≡ t
unfolding after
after-append [] t h = refl
after-append (c ∷ d) t h = ground (arith, after-append d t)

reverse-with_number :
    (t : Text) (n : ℕ) → reverse (with_number t n) ≡ decimal_rev n ++ colon ∷ reverse t
unfolding with_number
reverse-with_number t n = simp (reverse-append, reverse-cons, reverse-reverse, append_assoc)

decimal_rev-before : (t : Text) (n : ℕ) → before (reverse (with_number t n)) ≡ decimal_rev n
decimal_rev-before t n =
    rw (reverse-with_number t n)
      (before-append _ _ (unfold decimal_rev in decimal_from-IsDigits (suc n) n))

reverse-after : (t : Text) (n : ℕ) → after (reverse (with_number t n)) ≡ reverse t
reverse-after t n =
    rw (reverse-with_number t n)
      (after-append _ _ (unfold decimal_rev in decimal_from-IsDigits (suc n) n))

pub with_number-number : (t u : Text) (m n : ℕ) → with_number t m ≡ with_number u n → m ≡ n
unfolding decimal_rev
with_number-number t u m n h =
    let e : decimal_rev m ≡ decimal_rev n =
      sym (decimal_rev-before t m) ∙ ap (λ s. before (reverse s)) h ∙ decimal_rev-before u n in
    sym (undecimal-from (suc m) m (omega arith))
    ∙ ap undecimal e
    ∙ undecimal-from (suc n) n (omega arith)

pub with_number-text : (t u : Text) (m n : ℕ) → with_number t m ≡ with_number u n → t ≡ u
with_number-text t u m n h =
    let e : reverse t ≡ reverse u =
      sym (reverse-after t m) ∙ ap (λ s. after (reverse s)) h ∙ reverse-after u n in
    sym (reverse-reverse t) ∙ ap reverse e ∙ reverse-reverse u
