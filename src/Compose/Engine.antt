-- ===== src/Compose/Engine.antt =====
-- What the commands of compose.go ask of the packages runtime, image, network and volume, over a
-- state `W` of the machine, and the loop that the commands share. Times and signals are numbers.
use thrive.Prelude.{ℕ, zero, suc, ◌+◌, Bool, Option, none, some, List, [], ◌∷◌, Text}
use thrive.Compose.StartOrder.{VisitError}
use thrive.Compose.Ports.{PortMapping}

pub record Mount : Type 0 where
  pub source : Text
  pub destination : Text
  pub mount_type : Text
  pub options : List Text

pub record ContainerConfig : Type 0 where
  pub id : Text
  pub image : Text
  pub command : List Text
  pub env : List Text
  pub ports : List PortMapping
  pub mounts : List Mount
  pub network_mode : Text
  pub restart_policy : Option Text

-- The calls of the other packages; `true` is success, `none` an error.
pub record Engine (W : Type 0) : Type 0 where
  pub entries : W → Option (List Text)
  pub state : Text → W → W × Option Text
  pub kill : Text → ℕ → W → W × Bool
  pub delete : Text → W → W × Bool
  pub create : ContainerConfig → W → W × Bool
  pub start : Text → W → W × Bool
  pub reset_to_created : Text → W → W × Bool
  pub await_stopped : Text → ℕ → W → W
  pub wait : Text → W → W
  pub pull : Text → W → W × Bool
  pub has_network : Text → W → W × Bool
  pub create_network : Text → W → W × Bool
  pub is_named_volume : Text → Bool
  pub ensure_volume : Text → W → W × Option Text
  pub parse_restart_policy : Text → Option Text

pub data CommandError : Type 0 where
  no_image : Text → CommandError
  pull_failed : Text → CommandError
  create_failed : Text → CommandError
  start_failed : Text → CommandError
  state_failed : Text → CommandError
  kill_failed : Text → CommandError
  delete_failed : Text → CommandError
  still_running : Text → CommandError
  network_failed : Text → CommandError
  volume_failed : Text → CommandError
  order_failed : VisitError → CommandError

-- A loop that returns at the first error.
unfoldable pub for_each :
    {A W : Type 0} → List A → (A → W → W × Option CommandError) → W → W × Option CommandError
for_each [] f w = (w, none)
for_each (x ∷ xs) f w = elim (f x w).1 [
  | some e ↦ ((f x w).0, some e)
  | none ↦ for_each xs f (f x w).0
]

-- i, i + 1, …, n of them.
unfoldable pub indices : ℕ → ℕ → List ℕ
indices i zero = []
indices i (suc n) = i ∷ indices (i + 1) n
