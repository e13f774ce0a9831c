-- ===== src/Messenger/Actions.antt =====
-- A small logic of the actions of client/src/orchestration/AppOrchestrator.ts: what keeps a property of the
-- state, whether it throws or not.
use tor_e2ee_messenger.Common.Result.{Result, ok, err}
use tor_e2ee_messenger.Common.Action.{Action, continue, ◌>>=◌}
use tor_e2ee_messenger.Crypto.{CryptoError}
use tor_e2ee_messenger.Messenger.{App, AppError, on_store, as_crypto}

module _ {S : Type 0} {E : Type 0} (P : S → Type 0) where
  abbrev pub Keeps {ℓ} : {A : Type ℓ} → Action S E A → Type 0
  Keeps m = (s : S) → P s → P (m s).1

  pub continue-Keeps {ℓ κ} :
      {A : Type ℓ} {B : Type κ} (r : Result E A) (f : A → Action S E B) (s : S)
      → ((a : A) → Keeps (f a))
      → P s
      → P (continue r f s).1
  continue-Keeps (ok a) f s h q = h a s q
  continue-Keeps (err e) f s h q = q

module _ {S : Type 0} (P : App S → Type 0) where
  -- An action of the engine, and what comes after it.
  pub on_store-Keeps {ℓ κ} :
      {A : Type ℓ} {B : Type κ} (m : Action S CryptoError A) (f : A → Action (App S) AppError B)
      (app : App S)
      → ((a : A) → Keeps P (f a))
      → P (record app { signal_store = (m app.signal_store).1 })
      → P ((on_store m >>= f) app).1
  on_store-Keeps m f app h q =
      continue-Keeps P (as_crypto (m app.signal_store).0) f
        (record app { signal_store = (m app.signal_store).1 }) h q
