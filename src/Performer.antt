-- ===== src/Performer.antt =====
-- ponos/pkg/executor/avsPerformer: the performer of one AVS, a Docker container that runs its tasks.
-- avsPerformer.go has the data and avsContainerPerformer/containerPerformer.go the state.
--
-- Containers are shared objects: the slots, the goroutines that monitor them and those that drain
-- them hold references into `containers`. A context is the list of the cancel functions that end
-- it, its own first; it is done once one of them was called. Docker, gRPC, the environment and
-- generated ids are the parameter `Docker`.
pub mod Containers
pub mod Slots
pub mod Health
pub mod Deploy
pub mod Frames
pub mod Sound
pub mod Steps
pub mod Fresh
pub mod Removed
pub mod Deployed
pub mod Rehydrated
pub mod Invariant
use hourglass_monorepo.Prelude.{
  ℕ, ◌+◌, ◌≡◌, refl, ◌⊎◌, inl, inr, Bool, true, false, ◌||◌, Option, none, some, List, [], ◌∷◌,
  if◌then◌else◌, nat_beq,
}
use hourglass_monorepo.Text.{Bytes, codes}
use hourglass_monorepo.Dict.{Dict, get, put, nat_eq}
use hourglass_monorepo.Restarts.{LivenessConfig}

-- `config.AVSPerformerEnv`, without what only Kubernetes reads.
pub record PerformerEnv : Type 0 where
  pub name : Bytes
  pub value : Bytes
  pub value_from_env : Bytes

-- `PerformerImage`
pub record PerformerImage : Type 0 where
  pub repository : Bytes
  pub tag : Bytes
  pub digest : Bytes
  pub envs : List PerformerEnv

-- `PerformerStatus`
pub data PerformerStatus : Type 0 where
  performer_health_unknown performer_healthy performer_unhealthy : PerformerStatus

-- `PerformerHealth`
pub record PerformerHealth : Type 0 where
  pub container_is_healthy : Bool
  pub application_is_healthy : Bool
  pub consecutive_failures : ℕ
  pub last_health_check : ℕ

-- `PerformerResourceStatusInService` and `PerformerResourceStatusStaged`
abbrev pub in_service : Bytes
in_service = codes "InService"

abbrev pub staged : Bytes
staged = codes "Staged"

-- `AvsPerformerConfig`
pub record PerformerConfig : Type 0 where
  pub avs_address : Bytes
  pub image : PerformerImage
  pub performer_network_name : Bytes
  pub application_health_check_interval : ℕ

-- `ContainerInfo` of containerManager: the bindings of a port are those of the map `Ports`.
pub record ContainerInfo : Type 0 where
  pub id : Bytes
  pub hostname : Bytes
  pub ports : Bytes → List Bytes

-- `ContainerConfig` of containerManager, where the code does not write a constant.
pub record ContainerConfig : Type 0 where
  pub config_hostname : Bytes
  pub config_image : Bytes
  pub network_name : Bytes
  pub env : List Bytes

abbrev pub Ctx : Type 0
Ctx = List ℕ

-- What the performer calls, over the state `M` of Docker and the rest of the world. The first
-- `Bool` of a call is whether its context is done when it starts; a `false` or `none` that comes back
-- is an error.
pub record Docker (M Client : Type 0) : Type 0 where
  pub create : M → Bool → ContainerConfig → M × Option ContainerInfo
  pub start : M → Bool → Bytes → M × Bool
  pub wait_for_running : M → Bool → Bytes → M × Bool
  pub inspect : M → Bool → Bytes → M × Option ContainerInfo
  pub stop : M → Bool → Bytes → M × Bool
  pub remove_container : M → Bool → Bytes → M × Bool
  pub start_liveness_monitoring : M → Bool → Bytes → LivenessConfig → M × Bool
  pub stop_liveness_monitoring : M → Bytes → M
  pub request_restart : M → Bytes → M
  pub adopt_container : M → Bool → Bytes → LivenessConfig → M × Bool
  -- `NewAvsPerformerClient`, and its `Check` and `ExecuteTask`
  pub new_client : Bytes → Option Client
  pub check_health : M → Bool → Client → M × Bool
  pub execute_task : M → Client → Bytes → Bytes → M × Option (Bytes × Bytes)
  pub getenv : Bytes → Bytes
  pub hash_avs_address : Bytes → Bytes
  pub unix_time : M → ℕ
  -- `uuid.New` at its n-th call
  pub new_uuid : ℕ → Bytes

-- `PerformerContainer`; its `info`, `client` and channels are set from the start.
pub record PerformerContainer (Client : Type 0) : Type 0 where
  pub performer_id : Bytes
  pub info : ContainerInfo
  pub client : Client
  pub performer_health : PerformerHealth
  -- what is buffered in `statusChan`, oldest first
  pub status_chan : List PerformerStatus
  pub status_context : Ctx
  pub status_cancel : ℕ
  pub container_image : PerformerImage
  pub status : Bytes

-- `currentContainer`, an atomic value: once something was stored, a cleared slot is a nil pointer
-- that is not a nil interface.
pub data CurrentSlot : Type 0 where
  never_stored nil_stored : CurrentSlot
  stored : ℕ → CurrentSlot

-- `AvsContainerPerformer`, with the world. The counter gives fresh references, cancel functions and
-- ids.
pub record Performer (M Client : Type 0) : Type 0 where
  pub world : M
  pub counter : ℕ
  pub cancelled : List ℕ
  pub containers : Dict ℕ (PerformerContainer Client)
  pub current_container : CurrentSlot
  pub next_container : Option ℕ
  -- `taskWaitGroups`, and how many tasks each wait group has
  pub task_wait_groups : Dict Bytes ℕ
  pub group_counts : Dict ℕ ℕ
  pub draining_performers : Dict Bytes (Unit {0})
  -- whether `activeDeploymentMu` is held
  pub deploying : Bool

pub data PerformerError : Type 0 where
  create_failed start_failed wait_failed inspect_failed no_endpoint client_failed : PerformerError
  liveness_failed next_occupied invalid_current performer_not_found remove_failed : PerformerError
  not_in_next_slot unhealthy_performer no_current_container task_failed : PerformerError
  deployment_in_progress deployment_timeout wait_cancelled status_closed adopt_failed :
      PerformerError
  -- a nil pointer that is read, which ends the program
  nil_dereference : PerformerError

-- An outcome: a value, or an error.
pub data Outcome (A : Type 0) : Type 0 where
  done : A → Outcome A
  failed : PerformerError → Outcome A

-- A method on the performer, which keeps its changes where it returns an error.
abbrev pub Run : Type 0 → Type 0 → Type 0
Run W A = W → W × Outcome A

abbrev pub and_then : {W A B : Type 0} → W × Outcome A → (A → Run W B) → W × Outcome B
and_then (w, done a) k = k a w
and_then (w, failed e) k = (w, failed e)

infixl 5 ◌>>=◌ ◌>>◌
abbrev pub ◌>>=◌ : {W A B : Type 0} → Run W A → (A → Run W B) → Run W B
◌>>=◌ m k w = and_then (m w) k

abbrev pub ◌>>◌ : {W B : Type 0} → Run W (Unit {0}) → Run W B → Run W B
m >> k = m >>= λ _. k

abbrev pub pure : {W A : Type 0} → A → Run W A
pure a w = (w, done a)

abbrev pub throw : {W A : Type 0} → PerformerError → Run W A
throw e w = (w, failed e)

-- Inversion of a call.
pub Run-cases :
    {W A : Type 0} (r : W × Outcome A)
    → ((w : W) × (a : A) × (r ≡ (w, done a)))
      ⊎ ((w : W) × (e : PerformerError) × (r ≡ (w, failed e)))
Run-cases (w, done a) = inl (w, a, refl)
Run-cases (w, failed e) = inr (w, e, refl)

pub Outcome-cases :
    {A : Type 0} (o : Outcome A)
    → ((a : A) × (o ≡ done a)) ⊎ ((e : PerformerError) × (o ≡ failed e))
Outcome-cases (done a) = inl (a, refl)
Outcome-cases (failed e) = inr (e, refl)

-- `ctx.Done()`: whether a cancel function of the context was called.
abbrev pub any_cancelled : List ℕ → ℕ → Bool
any_cancelled [] c = false
any_cancelled (x ∷ xs) c = nat_beq x c || any_cancelled xs c

abbrev pub is_done : List ℕ → Ctx → Bool
is_done cancelled [] = false
is_done cancelled (c ∷ ctx) = any_cancelled cancelled c || is_done cancelled ctx

module _ {M Client : Type 0} where
  abbrev pub ctx_done : Performer M Client → Ctx → Bool
  ctx_done p ctx = is_done p.cancelled ctx

  -- A cancel function.
  abbrev pub cancel : ℕ → Performer M Client → Performer M Client
  cancel c p = record p { cancelled = c ∷ p.cancelled }

  -- What a reference points to.
  abbrev pub deref : Performer M Client → ℕ → Option (PerformerContainer Client)
  deref p r = get r p.containers

  -- A write to the object behind a reference.
  unfoldable pub modify :
      ℕ
      → (PerformerContainer Client → PerformerContainer Client)
      → Performer M Client
      → Performer M Client
  modify r f p = elim (deref p r) [
    | none ↦ p
    | some c ↦ record p { containers = put r (f c) p.containers }
  ]
