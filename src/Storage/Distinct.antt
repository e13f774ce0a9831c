-- ===== src/Storage/Distinct.antt =====
-- Tables in which every key stands once.
use tor_e2ee_messenger.Common.{
  ◌+◌, ◌-◌, ◌≡◌, refl, none, List, [], ◌∷◌, Keys, ◌==◌, lookup, put, remove, lookup-put,
  lookup-remove, length, Bool-cases, inl, inr, if◌then◌else◌, arith,
}
use tor_e2ee_messenger.Storage.History.{is_found}

module _ {ℓ κ} {K : Type ℓ} {V : Type κ} ⦃e : Keys K⦄ where
  abbrev pub IsDistinct : List (K × V) → Type κ
  IsDistinct [] = Unit {κ}
  IsDistinct ((k, v) ∷ m) = (lookup k m ≡ none) × IsDistinct m

  pub put-IsDistinct : (k : K) (v : V) (m : List (K × V)) → IsDistinct m → IsDistinct (put k v m)
  unfolding lookup put
  put-IsDistinct k v [] h = (refl, tt)
  put-IsDistinct k v ((j, w) ∷ m) (h, d) = elim (Bool-cases (j == k)) [
    | inl same ↦ rw same (h, d)
    | inr other ↦ rw other (
      ground (arith, lookup-put j k v m, e.same_key_iff j k, e.same_key_iff k j, h, other),
      put-IsDistinct k v m d,
    )
  ]

  pub remove-IsDistinct : (k : K) (m : List (K × V)) → IsDistinct m → IsDistinct (remove k m)
  unfolding lookup remove
  remove-IsDistinct k [] h = tt
  remove-IsDistinct k ((j, w) ∷ m) (h, d) = elim (Bool-cases (j == k)) [
    | inl same ↦ rw same (remove-IsDistinct k m d)
    | inr other ↦ rw other (ground (arith, lookup-remove j k m, h), remove-IsDistinct k m d)
  ]

  pub length-put :
      (k : K) (v : V) (m : List (K × V))
      → length (put k v m) ≡ (if is_found (lookup k m) then length m else length m + 1)
  unfolding lookup put
  length-put k v [] = refl
  length-put k v ((j, w) ∷ m) = ground (arith, length-put k v m)

  length-remove_add :
      (k : K) (m : List (K × V))
      → IsDistinct m
      → length (remove k m) + (if is_found (lookup k m) then 1 else 0) ≡ length m
  unfolding lookup remove
  length-remove_add k [] d = refl
  length-remove_add k ((j, w) ∷ m) (h, d) =
      ground (arith, length-remove_add k m d, e.same_key_iff j k, h)

  pub length-remove :
      (k : K) (m : List (K × V))
      → IsDistinct m
      → length (remove k m) ≡ (if is_found (lookup k m) then length m - 1 else length m)
  length-remove k m d = ground (arith, length-remove_add k m d)
