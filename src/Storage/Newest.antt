-- ===== src/Storage/Newest.antt =====
-- That the loop of `getLatestSignedPreKey` in client/src/crypto/InMemorySignalStore.ts finds the newest key.
use tor_e2ee_messenger.Common.{
  ℕ, ◌≤◌, ◌≡◌, refl, none, some, List, [], ◌∷◌, ltb, lookup, number_keys, Bool-cases, inl, inr, ◌⊎◌,
  arith, nat_eq_iff,
}
use tor_e2ee_messenger.Crypto.{SignedPreKey}
use tor_e2ee_messenger.Storage.Memory.{latest_from}
use tor_e2ee_messenger.Storage.Distinct.{IsDistinct}
use tor_e2ee_messenger.Storage.History.{IsLatest}

-- The best key so far or one of the rows, and no older than any of these.
record Best (start : SignedPreKey) (rows : List (ℕ × SignedPreKey)) : Type 0 where
  best : SignedPreKey
  found : latest_from (some start) rows ≡ some best
  no_older : start.created_at ≤ best.created_at
  bounds :
      (n : ℕ) (key : SignedPreKey) → lookup n rows ≡ some key → key.created_at ≤ best.created_at
  from : (best ≡ start) ⊎ ((n : ℕ) × (lookup n rows ≡ some best))

-- A row in front: it or the start goes on.
cons-Best :
    (start : SignedPreKey) (k : ℕ) (key : SignedPreKey) (rows : List (ℕ × SignedPreKey))
    → lookup k rows ≡ none
    → ((best : SignedPreKey) → Best best rows)
    → Best start ((k, key) ∷ rows)
unfolding latest_from lookup
cons-Best start k key rows fresh next = elim (Bool-cases (ltb start.created_at key.created_at)) [
  | inl newer ↦
      let b = next key in
      record {
        best = b.best;
        found = rw newer b.found;
        no_older = ground (arith, b.no_older, newer);
        bounds = λ n other e. ground (arith, b.no_older, b.bounds n other, e);
        from = elim b.from [
          | inl same ↦ inr (k, ground (arith, same))
          | inr (n, e) ↦ inr (n, ground (arith, e, fresh, nat_eq_iff k n))
        ];
      }
  | inr older ↦
      let b = next start in
      record {
        best = b.best;
        found = rw older b.found;
        no_older = b.no_older;
        bounds = λ n other e. ground (arith, b.no_older, older, b.bounds n other, e);
        from = elim b.from [
          | inl same ↦ inl same
          | inr (n, e) ↦ inr (n, ground (arith, e, fresh, nat_eq_iff k n))
        ];
      }
]

rows-Best :
    (rows : List (ℕ × SignedPreKey)) → IsDistinct rows → (start : SignedPreKey) → Best start rows
unfolding latest_from lookup
rows-Best [] d start = record {
  best = start;
  found = refl;
  no_older = omega arith;
  bounds = λ n key e. absurd cc;
  from = inl refl;
}
rows-Best ((k, key) ∷ rows) (fresh, d) start = cons-Best start k key rows fresh (rows-Best rows d)

-- Of keys that each have one id, the loop takes one that is newest.
pub latest_from-IsLatest :
    (rows : List (ℕ × SignedPreKey))
    → IsDistinct rows
    → IsLatest (λ n. lookup n rows) (latest_from none rows)
unfolding latest_from lookup
latest_from-IsLatest [] d = λ n. refl
latest_from-IsLatest ((k, key) ∷ rows) (fresh, d) =
    let b = rows-Best rows d key in
    rw b.found (
      elim b.from [
        | inl same ↦ (k, ground (arith, same))
        | inr (n, e) ↦ (n, ground (arith, e, fresh, nat_eq_iff k n))
      ],
      λ n other e. ground (arith, b.no_older, b.bounds n other, e),
    )
