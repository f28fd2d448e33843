-- ===== src/Types.antt =====
-- The data of internal/types/types.go and internal/types/interfaces.go that the components share.
-- A `uuid.UUID` is the list of its bytes, and so are `net.IP` and `net.HardwareAddr`.
-- `binary.NativeEndian` is the little-endian order of the amd64 and arm64 hosts that the BPF objects
-- of internal/adapter/bpf/zz_generated_bpfel.go are built for.
mod Coordinates
mod Tests
use udplb.Base.{ℤ, ℕ, zero, suc, ◌+◌, ◌*◌, ◌%◌, ◌^◌, Bool, true, false, List, [], ◌∷◌, take, drop}

abbrev pub Uuid : Type 0
Uuid = List ℕ

-- `State`, `StateUnknown` to `StateUnavailable`.
pub data State : Type 0 where
  unknown available unschedulable unavailable : State

abbrev pub is_available : State → Bool
is_available available = true
is_available _ = false

abbrev pub state_beq : State → State → Bool
state_beq unknown unknown = true
state_beq available available = true
state_beq unschedulable unschedulable = true
state_beq unavailable unavailable = true
state_beq _ _ = false

pub record BackendSpec : Type 0 where
  pub ip : List ℕ
  pub port : ℤ
  pub mac_addr : List ℕ
  pub state : State

pub record BackendStatus : Type 0 where
  pub state : State

pub record BackendStatusEntry : Type 0 where
  pub backend_id : Uuid
  pub state : State

pub record Assignment : Type 0 where
  pub backend_id : Uuid
  pub session_id : Uuid

abbrev pub n_coordinates : ℕ
n_coordinates = 4

pub record Backend : Type 0 where
  pub id : Uuid
  pub spec : BackendSpec
  pub status : BackendStatus
  pub coordinates : List ℕ

-- `binary.LittleEndian.Uint32` of (at most) four bytes.
unfoldable pub uint32_le : List ℕ → ℕ
uint32_le [] = 0
uint32_le (b ∷ bs) = b + 256 * uint32_le bs

-- The loop of `NewBackend` from coordinate `i` on, `k` of them left.
unfoldable pub coordinates_from : Uuid → ℕ → ℕ → List ℕ
coordinates_from h i zero = []
coordinates_from h i (suc k) = uint32_le (take 4 (drop (4 * i) h)) ∷ coordinates_from h (i + 1) k

unfoldable pub new_backend : Uuid → BackendSpec → BackendStatus → Backend
unfolding coordinates_from
new_backend id spec status = record {
  id = id;
  spec = spec;
  status = status;
  coordinates = coordinates_from id 0 n_coordinates;
}

-- `StateMachineCommand`: the five constants, and any other string.
pub data Command : Type 0 where
  add append delete put subtract other : Command
