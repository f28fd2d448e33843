-- ===== src/Config.antt =====
-- The configured backends: the entries of internal/types/types.go, `buildBackends` of
-- internal/controller/controller.go, and `transformBackendList` of internal/adapter/bpf/manager.go, which
-- makes of a backend what the kernel program reads. The parsers of package net and `uuid.NewSHA1` in the
-- namespace of the caller are parameters.
pub mod Build
pub mod Kernel
pub mod Validated
mod Tests
use udplb.Base.{
  ℤ, pos, negsuc, ◌-◌, ℕ, zero, suc, ◌+◌, ◌/◌, ◌%◌, ◌^◌, Bool, Option, none, some, List, [], ◌∷◌,
  ◌++◌, ◌⊎◌, inl, inr, ltb, if◌then◌else◌,
}
use udplb.Types.{Uuid, Backend, BackendSpec, available, new_backend}
use udplb.Net.{net_ipv4_to_uint32, to_array6}

pub record BackendConfig : Type 0 where
  pub enabled : Bool
  pub ip : List ℕ
  pub mac : List ℕ
  pub port : ℤ

-- The decimal digits of a number, with those behind it, on fuel.
unfoldable pub digits : ℕ → ℕ → List ℕ → List ℕ
digits zero n acc = acc
digits (suc fuel) n acc =
    let rest = digits fuel (n / 10) ((48 + n % 10) ∷ acc) in
    if ltb n 10 then (48 + n % 10) ∷ acc else rest

-- `%d`: a `-` before the digits of a negative number.
unfoldable pub decimal : ℤ → List ℕ
unfolding digits
decimal (pos n) = digits (suc n) n []
decimal (negsuc n) = 45 ∷ digits (suc (suc n)) (suc n) []

-- `uint16(n)`.
unfoldable pub to_uint16 : ℤ → ℕ
to_uint16 (pos n) = n % 2 ^ 16
to_uint16 (negsuc n) = 2 ^ 16 - suc (n % 2 ^ 16)

-- `fmt.Sprintf("%s:%d", bc.IP, bc.Port)`.
unfoldable pub endpoint : BackendConfig → List ℕ
unfolding decimal
endpoint bc = bc.ip ++ (58 ∷ decimal bc.port)

-- The error at an index of the list.
pub data BuildError : Type 0 where
  cannot_parse_ip : ℕ → BuildError
  cannot_parse_mac : ℕ → BuildError

module _ (parse_ip : List ℕ → Option (List ℕ)) (parse_mac : List ℕ → Option (List ℕ))
    (new_sha1 : List ℕ → Uuid) where
  abbrev pub backend_of : BackendConfig → List ℕ → List ℕ → Backend
  backend_of bc ip mac =
      new_backend (new_sha1 (endpoint bc))
        (record { ip = ip; port = bc.port; mac_addr = mac; state = available })
        (record { state = available })

  abbrev pub appended : Backend → BuildError ⊎ List Backend → BuildError ⊎ List Backend
  appended b (inl e) = inl e
  appended b (inr out) = inr (b ∷ out)

  -- The body of the loop for an enabled entry, with what the rest of the loop gives.
  abbrev pub build_entry :
      ℕ
      → BackendConfig
      → Option (List ℕ)
      → Option (List ℕ)
      → BuildError ⊎ List Backend
      → BuildError ⊎ List Backend
  build_entry i bc none mac rest = inl (cannot_parse_ip i)
  build_entry i bc (some ip) none rest = inl (cannot_parse_mac i)
  build_entry i bc (some ip) (some mac) rest = appended (backend_of bc ip mac) rest

  -- `buildBackends` from index `i` on.
  unfoldable pub build_backends : ℕ → List BackendConfig → BuildError ⊎ List Backend
  build_backends i [] = inr []
  build_backends i (bc ∷ bcs) =
      let rest = build_backends (i + 1) bcs in
      if bc.enabled then build_entry i bc (parse_ip bc.ip) (parse_mac bc.mac) rest else rest

-- `udplbBackendSpecT`.
pub record UdplbBackendSpec : Type 0 where
  pub id : Uuid
  pub ip : ℕ
  pub port : ℕ
  pub mac : List ℕ

abbrev pub spec_of : Backend → Option ℕ → Option (List ℕ) → Option UdplbBackendSpec
spec_of b none mac = none
spec_of b (some ip) none = none
spec_of b (some ip) (some mac) =
    some (record { id = b.id; ip = ip; port = to_uint16 b.spec.port; mac = mac })

abbrev pub put_first :
    Option UdplbBackendSpec → Option (List UdplbBackendSpec) → Option (List UdplbBackendSpec)
put_first none out = none
put_first (some spec) none = none
put_first (some spec) (some out) = some (spec ∷ out)

-- `transformBackendList`: `none` is a panic.
unfoldable pub transform_backend_list : List Backend → Option (List UdplbBackendSpec)
transform_backend_list [] = some []
transform_backend_list (b ∷ bs) =
    put_first (spec_of b (net_ipv4_to_uint32 b.spec.ip) (to_array6 b.spec.mac_addr))
      (transform_backend_list bs)
