-- ===== src/Network/TorManager/Status.antt =====
-- The status of client/src/network/TorManager.ts under any calls.
use tor_e2ee_messenger.Common.{
  ℕ, ◌≡◌, refl, ap, append_assoc, ◌∙◌, Bool, true, false, List, [], ◌∷◌, ◌++◌, ◌⊎◌, inl, inr,
  if◌then◌else◌,
}
use tor_e2ee_messenger.Network.TorManager.{
  TorManager, TorStatus, not_initialized, bootstrapping, ready, failed, stopped, NativeTor, absent,
  broken, present, started_native, stopped_native, Started, is_started, ManagerStep, begins,
  finishes, stops, configures, is_ready, begin_start, finish_start, stop_tor, update_config,
  manager_step, manager_steps, start_native, start_anew, at_once, Progress,
}

-- The percentage that goes with the status.
abbrev pub Percentage : TorStatus → ℕ → Type 0
Percentage ready n = n ≡ 100
Percentage stopped n = n ≡ 0
Percentage not_initialized n = n ≡ 0
Percentage bootstrapping n = (n ≡ 0) ⊎ (n ≡ 100)
Percentage failed n = (n ≡ 0) ⊎ (n ≡ 100)

abbrev pub IsReported : TorManager → Type 0
IsReported m = Percentage m.status m.bootstrap_percentage

zero_or_full : (s : TorStatus) (n : ℕ) → Percentage s n → (n ≡ 0) ⊎ (n ≡ 100)
zero_or_full ready n h = inr h
zero_or_full stopped n h = inl h
zero_or_full not_initialized n h = inl h
zero_or_full bootstrapping n h = h
zero_or_full failed n h = h

chosen :
    (b : Bool) (x y : Started × List Progress × TorManager)
    → IsReported x.2
    → IsReported y.2
    → IsReported (if b then x else y).2
chosen true x y h k = h
chosen false x y h k = k

start_native-IsReported :
    (native : NativeTor) (m : TorManager)
    → m.status ≡ bootstrapping
    → IsReported m
    → IsReported (start_native native m).2
start_native-IsReported absent m e h = refl
start_native-IsReported broken m e h = zero_or_full m.status m.bootstrap_percentage h
start_native-IsReported present m e h = h

begin_start-IsReported :
    (native : NativeTor) (m : TorManager) → IsReported m → IsReported (begin_start native m).2
unfolding begin_start
begin_start-IsReported native m h =
    let fresh : TorManager = record m { status = bootstrapping } in
    chosen (is_ready m) (is_started, (100, true) ∷ [], m) (start_anew native fresh) h
      (chosen m.config.dev_mode (at_once fresh) (start_native native fresh) refl (
        start_native-IsReported native fresh refl (zero_or_full m.status m.bootstrap_percentage h)))

manager_step-IsReported :
    (s : ManagerStep) (m : TorManager) → IsReported m → IsReported (manager_step s m)
unfolding manager_step finish_start stop_tor update_config
manager_step-IsReported (begins native) m h = begin_start-IsReported native m h
manager_step-IsReported (finishes true) m h = refl
manager_step-IsReported (finishes false) m h = zero_or_full m.status m.bootstrap_percentage h
manager_step-IsReported stops m h = refl
manager_step-IsReported (configures config) m h = h

-- Whatever steps a manager takes, the starts' second steps among them, its percentage goes with its
-- status, as it did before: 100 where it is ready, 0 where it is stopped or new, and 0 or 100 otherwise.
pub manager_steps-IsReported :
    (steps : List ManagerStep) (m : TorManager) → IsReported m → IsReported (manager_steps steps m)
unfolding manager_steps
manager_steps-IsReported [] m h = h
manager_steps-IsReported (s ∷ steps) m h =
    manager_steps-IsReported steps (manager_step s m) (manager_step-IsReported s m h)

-- A manager that is not ready starts the native Tor; it is stopped while the start is awaited; then the
-- start succeeds. It then holds itself ready, although the native module was told to stop last, and no
-- later start calls the native module again.
pub manager_steps-stopped_ready :
    (m : TorManager) (native : NativeTor)
    → is_ready m ≡ false
    → m.config.dev_mode ≡ false
    → (let after = manager_steps (begins present ∷ stops ∷ finishes true ∷ []) m in
        (is_ready after ≡ true)
        × (after.native_calls ≡ m.native_calls ++ started_native ∷ stopped_native ∷ [])
        × ((begin_start native after).0 ≡ is_started)
        × ((begin_start native after).2 ≡ after))
unfolding manager_steps manager_step begin_start finish_start stop_tor
manager_steps-stopped_ready m native idle live =
    let begun : (begin_start present m).2 ≡ record m {
      status = bootstrapping;
      has_native = true;
      native_calls = m.native_calls ++ started_native ∷ [];
    } =
      rw (idle, begin_start) (rw live refl) in
    (
      refl,
      ap (λ x. if x.has_native then x.native_calls ++ stopped_native ∷ [] else x.native_calls) begun
          ∙ append_assoc m.native_calls (started_native ∷ []) (stopped_native ∷ []),
      refl,
      refl,
    )
