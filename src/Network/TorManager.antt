-- ===== src/Network/TorManager.antt =====
-- client/src/network/TorManager.ts. A start is awaited, so it has two steps, and other calls may come
-- between them; calls of the native module are kept in a list.
pub mod Status
use tor_e2ee_messenger.Common.{
  ℕ, ◌≡◌, refl, Bool, true, false, not, Option, none, some, List, [], ◌∷◌, ◌++◌, Text, codes,
  nat_eq, ◌⊎◌, if◌then◌else◌,
}

pub data TorStatus : Type 0 where
  not_initialized bootstrapping ready failed stopped : TorStatus

pub record TorConfig : Type 0 where
  pub socks_proxy_host : Text
  pub socks_proxy_port : ℕ
  pub target_host : Text
  pub target_port : ℕ
  pub dev_mode : Bool

-- `Partial<TorConfig>`; a key that is left out is `none`.
pub record PartialConfig : Type 0 where
  pub socks_proxy_host : Option Text
  pub socks_proxy_port : Option ℕ
  pub target_host : Option Text
  pub target_port : Option ℕ
  pub dev_mode : Option Bool

pub data NativeCall : Type 0 where
  started_native stopped_native : NativeCall

-- The progress reports: a percentage, and whether Tor is ready.
abbrev pub Progress : Type 0
Progress = ℕ × Bool

pub record TorManager : Type 0 where
  pub status : TorStatus
  pub config : TorConfig
  pub bootstrap_percentage : ℕ
  pub has_native : Bool
  pub native_calls : List NativeCall

-- `react-native-tor`: not installed, its constructor throws, or it gives an instance.
pub data NativeTor : Type 0 where
  absent broken present : NativeTor

abbrev pub or_else {ℓ} : {A : Type ℓ} → Option A → A → A
or_else none d = d
or_else (some a) d = a

-- `||` on a text, and on a port.
abbrev pub text_or : Option Text → Text → Text
text_or none d = d
text_or (some []) d = d
text_or (some (c ∷ s)) d = c ∷ s

abbrev pub port_or : Option ℕ → ℕ → ℕ
port_or none d = d
port_or (some n) d = if nat_eq n 0 then d else n

unfoldable pub new_manager : PartialConfig → TorManager
new_manager config = record {
  status = not_initialized;
  config = record {
    socks_proxy_host = text_or config.socks_proxy_host (codes "127.0.0.1");
    socks_proxy_port = port_or config.socks_proxy_port 9050;
    target_host = text_or config.target_host (codes "127.0.0.1");
    target_port = port_or config.target_port 8080;
    dev_mode = or_else config.dev_mode false;
  };
  bootstrap_percentage = 0;
  has_native = false;
  native_calls = [];
}

unfoldable pub update_config : PartialConfig → TorManager → TorManager
update_config config m = record m {
  config = record {
    socks_proxy_host = or_else config.socks_proxy_host m.config.socks_proxy_host;
    socks_proxy_port = or_else config.socks_proxy_port m.config.socks_proxy_port;
    target_host = or_else config.target_host m.config.target_host;
    target_port = or_else config.target_port m.config.target_port;
    dev_mode = or_else config.dev_mode m.config.dev_mode;
  };
}

-- The singleton.
unfoldable pub get_instance : PartialConfig → Option TorManager → TorManager
unfolding new_manager update_config
get_instance config none = new_manager config
get_instance config (some m) = update_config config m

unfoldable pub is_ready : TorManager → Bool
is_ready m = elim m.status [
  | ready ↦ true
  | not_initialized ↦ false
  | bootstrapping ↦ false
  | failed ↦ false
  | stopped ↦ false
]

-- What the first step of a start leaves to do.
pub data Started : Type 0 where
  is_started awaits_native throws : Started

abbrev pub at_once : TorManager → Started × List Progress × TorManager
at_once m = (is_started, (100, true) ∷ [], record m { bootstrap_percentage = 100; status = ready })

abbrev pub start_native : NativeTor → TorManager → Started × List Progress × TorManager
start_native absent m = at_once m
start_native broken m = (throws, (m.bootstrap_percentage, false) ∷ [], record m { status = failed })
start_native present m = (
  awaits_native,
  (10, false) ∷ [],
  record m { has_native = true; native_calls = m.native_calls ++ started_native ∷ [] },
)

abbrev pub start_anew : NativeTor → TorManager → Started × List Progress × TorManager
start_anew native m = if m.config.dev_mode then at_once m else start_native native m

-- `startTor` up to its `await`.
unfoldable pub begin_start : NativeTor → TorManager → Started × List Progress × TorManager
unfolding is_ready
begin_start native m =
    if is_ready m
    then (is_started, (100, true) ∷ [], m)
    else start_anew native (record m { status = bootstrapping })

-- The rest of `startTor`: whether the native start succeeded.
unfoldable pub finish_start : Bool → TorManager → Started × List Progress × TorManager
finish_start true m = at_once m
finish_start false m = (throws, (m.bootstrap_percentage, false) ∷ [], record m { status = failed })

unfoldable pub stop_tor : TorManager → TorManager
stop_tor m = record m {
  native_calls = if m.has_native then m.native_calls ++ stopped_native ∷ [] else m.native_calls;
  status = stopped;
  bootstrap_percentage = 0;
}

-- The steps of a manager, in whatever order.
pub data ManagerStep : Type 0 where
  begins : NativeTor → ManagerStep
  finishes : Bool → ManagerStep
  stops : ManagerStep
  configures : PartialConfig → ManagerStep

unfoldable pub manager_step : ManagerStep → TorManager → TorManager
unfolding begin_start finish_start stop_tor update_config
manager_step (begins native) m = (begin_start native m).2
manager_step (finishes good) m = (finish_start good m).2
manager_step stops m = stop_tor m
manager_step (configures config) m = update_config config m

unfoldable pub manager_steps : List ManagerStep → TorManager → TorManager
manager_steps [] m = m
manager_steps (s ∷ steps) m = manager_steps steps (manager_step s m)
