-- ===== src/Storage/Rows.antt =====
-- The rows of a table with their values changed, as client/src/storage/SqliteSignalStore.ts stores them.
use tor_e2ee_messenger.Common.{
  suc, ◌≡◌, refl, ap, Option, none, some, List, [], ◌∷◌, Keys, lookup, put, remove, length,
  Bool-cases, inl, inr, ◌==◌,
}
use mathlib.Core.Option
use tor_e2ee_messenger.Crypto.{CryptoError}
use tor_e2ee_messenger.Common.Result.{Result, ok}
use tor_e2ee_messenger.Storage.Sqlite.{decode, counted}
use tor_e2ee_messenger.Storage.History.{is_found}

module _ {ℓ κ} {V : Type ℓ} {W : Type κ} (f : V → W) where
  pub counted-map : (o : Option V) → counted (Option.map f o) ≡ is_found o
  counted-map none = refl
  counted-map (some v) = refl

  -- What was found is decoded to what was stored, where that is so for each value.
  pub decode-map :
      (d : W → Result CryptoError V) (o : Option V)
      → ((v : V) → o ≡ some v → d (f v) ≡ ok v)
      → decode d (Option.map f o) ≡ ok o
  decode-map d none h = refl
  decode-map d (some v) h = rw (h v refl) refl

module _ {ℓ κ ι} {K : Type ℓ} {V : Type κ} {W : Type ι} ⦃e : Keys K⦄ (f : V → W) where
  -- The values of a table, changed.
  unfoldable pub rows_of : List (K × V) → List (K × W)
  rows_of [] = []
  rows_of ((k, v) ∷ m) = (k, f v) ∷ rows_of m

  pub rows_of-put :
      (k : K) (v : V) (m : List (K × V)) → put k (f v) (rows_of m) ≡ rows_of (put k v m)
  unfolding put rows_of
  rows_of-put k v [] = refl
  rows_of-put k v ((j, w) ∷ m) = elim (Bool-cases (j == k)) [
    | inl same ↦ rw same refl
    | inr other ↦ rw other (ap (λ rest. (j, f w) ∷ rest) (rows_of-put k v m))
  ]

  pub rows_of-remove : (k : K) (m : List (K × V)) → remove k (rows_of m) ≡ rows_of (remove k m)
  unfolding remove rows_of
  rows_of-remove k [] = refl
  rows_of-remove k ((j, w) ∷ m) = elim (Bool-cases (j == k)) [
    | inl same ↦ rw same (rows_of-remove k m)
    | inr other ↦ rw other (ap (λ rest. (j, f w) ∷ rest) (rows_of-remove k m))
  ]

  pub lookup-rows_of : (k : K) (m : List (K × V)) → lookup k (rows_of m) ≡ Option.map f (lookup k m)
  unfolding lookup rows_of
  lookup-rows_of k [] = refl
  lookup-rows_of k ((j, w) ∷ m) = elim (Bool-cases (j == k)) [
    | inl same ↦ rw same refl
    | inr other ↦ rw other (lookup-rows_of k m)
  ]

  pub length-rows_of : (m : List (K × V)) → length (rows_of m) ≡ length m
  unfolding rows_of
  length-rows_of [] = refl
  length-rows_of (row ∷ m) = ap suc (length-rows_of m)
