-- ===== src/Common/Action.antt =====
-- Code that may throw while it changes a store. What was written before a throw stays written, so
-- the store comes back beside the error too.
use tor_e2ee_messenger.Common.Result.{Result, ok, err}

abbrev pub Action {ℓ κ ι} : Type ℓ → Type κ → Type ι → Type (ℓ ⊔ κ ⊔ ι)
Action S E A = S → Result E A × S

module _ {ℓ κ ι} {S : Type ℓ} {E : Type κ} {A : Type ι} where
  abbrev pub pure : A → Action S E A
  pure a s = (ok a, s)

  -- a computation that does not touch the store
  abbrev pub lift : Result E A → Action S E A
  lift r s = (r, s)

  -- a read of the store that may throw
  abbrev pub reads : (S → Result E A) → Action S E A
  reads f s = (f s, s)

module _ {ℓ κ} {S : Type ℓ} {E : Type κ} where
  -- a write
  abbrev pub writes : (S → S) → Action S E (Unit {0})
  writes f s = (ok tt, f s)

module _ {ℓ κ ι ο} {S : Type ℓ} {E : Type κ} {A : Type ι} {B : Type ο} where
  abbrev pub continue : Result E A → (A → Action S E B) → Action S E B
  continue (ok a) f s = f a s
  continue (err e) f s = (err e, s)

  infixl 5 ◌>>=◌ ◌>>◌
  abbrev pub ◌>>=◌ : Action S E A → (A → Action S E B) → Action S E B
  ◌>>=◌ m f s = let r = m s in continue r.0 f r.1

  abbrev pub ◌>>◌ : Action S E A → Action S E B → Action S E B
  m >> k = m >>= λ _. k
