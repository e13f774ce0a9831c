-- ===== src/Common/Assoc.antt =====
-- A JavaScript Map or object as an association list: a write replaces in place or goes to the end.
use Prim.Native.Nat.{ℕ}
use mathlib.Core.Path.{◌≡◌, refl}
use mathlib.Core.Bool.{Bool, true}
use mathlib.Core.Logic.{◌↔◌, ◌≢◌}
use mathlib.Core.List.{List, [], ◌∷◌}
use mathlib.Core.Option.{Option, none, some}
use native.Mathlib.Omega.{arith}
use tor_e2ee_messenger.Common.Tests.{nat_eq, nat_eq_iff, if◌then◌else◌}
use tor_e2ee_messenger.Common.Texts.{Text, text_eq, text_eq_iff}

-- The keys that a map can have: SameValueZero, which decides equality on numbers and texts.
pub record Keys {ℓ} (K : Type ℓ) : Type ℓ where
  pub same_key : K → K → Bool
  pub same_key_iff : (j k : K) → (same_key j k ≡ true) ↔ (j ≡ k)

instance abbrev pub text_keys : Keys Text
text_keys = record { same_key = text_eq; same_key_iff = text_eq_iff }

instance abbrev pub number_keys : Keys ℕ
number_keys = record { same_key = nat_eq; same_key_iff = nat_eq_iff }

abbrev pub ◌==◌ {κ} : {K : Type κ} ⦃keys : Keys K⦄ → K → K → Bool
◌==◌ ⦃keys⦄ j k = keys.same_key j k

infix 50 ◌==◌
pub same_key_refl {ℓ} : {K : Type ℓ} ⦃e : Keys K⦄ (k : K) → (k == k) ≡ true
same_key_refl ⦃e⦄ k = (e.same_key_iff k k).1 refl

module _ {ℓ κ} {K : Type ℓ} {V : Type κ} ⦃e : Keys K⦄ where
  unfoldable pub lookup : K → List (K × V) → Option V
  lookup k [] = none
  lookup k ((j, v) ∷ m) = if j == k then some v else lookup k m

  unfoldable pub put : K → V → List (K × V) → List (K × V)
  put k v [] = (k, v) ∷ []
  put k v ((j, w) ∷ m) = let rest = put k v m in if j == k then (j, v) ∷ m else (j, w) ∷ rest

  unfoldable pub remove : K → List (K × V) → List (K × V)
  remove k [] = []
  remove k ((j, w) ∷ m) = let rest = remove k m in if j == k then rest else (j, w) ∷ rest

  pub lookup-put :
      (j k : K) (v : V) (m : List (K × V))
      → lookup j (put k v m) ≡ (if k == j then some v else lookup j m)
  unfolding lookup put
  lookup-put j k v [] = refl
  lookup-put j k v ((i, w) ∷ m) =
      ground (arith, lookup-put j k v m, e.same_key_iff i k, e.same_key_iff i j, e.same_key_iff k j)

  pub lookup-remove :
      (j k : K) (m : List (K × V)) → lookup j (remove k m) ≡ (if k == j then none else lookup j m)
  unfolding lookup remove
  lookup-remove j k [] = ground arith
  lookup-remove j k ((i, w) ∷ m) =
      ground
        (arith, lookup-remove j k m, e.same_key_iff i k, e.same_key_iff i j, e.same_key_iff k j)

  pub lookup-put_self : (k : K) (v : V) (m : List (K × V)) → lookup k (put k v m) ≡ some v
  lookup-put_self k v m = rw (lookup-put k k v m, same_key_refl k)

  pub lookup-put_other :
      (j k : K) (v : V) (m : List (K × V)) → k ≢ j → lookup j (put k v m) ≡ lookup j m
  lookup-put_other j k v m h = ground (arith, lookup-put j k v m, e.same_key_iff k j)

  pub lookup-remove_self : (k : K) (m : List (K × V)) → lookup k (remove k m) ≡ none
  lookup-remove_self k m = rw (lookup-remove k k m, same_key_refl k)

  pub lookup-remove_other :
      (j k : K) (m : List (K × V)) → k ≢ j → lookup j (remove k m) ≡ lookup j m
  lookup-remove_other j k m h = ground (arith, lookup-remove j k m, e.same_key_iff k j)
