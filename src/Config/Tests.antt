-- ===== src/Config/Tests.antt =====
-- Runs on configured entries, and the theorems about them at concrete lists.
use udplb.Base.{
  pos, negsuc, ℕ, ◌≤◌, ◌≡◌, refl, true, false, inr, Option, none, some, List, [], ◌∷◌, length,
  replicate, ltb, nat_beq, if◌then◌else◌, arith, ◌||◌,
}
use udplb.Types.{Uuid, Backend, new_backend}
use udplb.Net.{
  parse_ipv4_to_uint32, parse_ieee802_mac, validate_uint16_port, to4, net_ipv4_to_uint32,
}
use udplb.Controller.{filter_available}
use udplb.Config.{
  BackendConfig, endpoint, digits, decimal, to_uint16, backend_of, build_backends, UdplbBackendSpec,
  transform_backend_list,
}
use udplb.Config.Build.{enabled_of, Matches, BuildOutcome, build_backends-BuildOutcome}
use udplb.Config.Validated.{Validated, IsExact, build_backends-Validated}

-- Parsers that read a text as the bytes themselves, and an id that is the text.
abbrev parse_ip : List ℕ → Option (List ℕ)
parse_ip s = if nat_beq (length s) 4 || nat_beq (length s) 16 then some s else none

abbrev parse_mac : List ℕ → Option (List ℕ)
parse_mac s = if ltb (length s) 6 then none else some s

abbrev new_sha1 : List ℕ → Uuid
new_sha1 s = s

abbrev entry : List ℕ → List ℕ → ℕ → BackendConfig
entry ip mac port = record { enabled = true; ip = ip; mac = mac; port = pos port }

abbrev first_entry : BackendConfig
first_entry = entry (10 ∷ 0 ∷ 0 ∷ 1 ∷ []) (1 ∷ 2 ∷ 3 ∷ 4 ∷ 5 ∷ 6 ∷ []) 9000

-- An address of sixteen bytes that is not an IPv4 address.
abbrev v6_entry : BackendConfig
v6_entry = entry (replicate 16 1) (replicate 6 7) 9000

abbrev disabled_entry : BackendConfig
disabled_entry = record { enabled = false; ip = []; mac = []; port = pos 0 }

-- A port and a hardware address that the kernel program cannot hold.
abbrev wide_entry : BackendConfig
wide_entry = entry (10 ∷ 0 ∷ 0 ∷ 2 ∷ []) (replicate 8 9) 65537

abbrev two_entries : List BackendConfig
two_entries = disabled_entry ∷ first_entry ∷ wide_entry ∷ []

abbrev built_of : BackendConfig → Backend
built_of bc = backend_of parse_ip parse_mac new_sha1 bc bc.ip bc.mac

-- The port -1 is 65535 for the kernel program.
negative_run : (decimal (negsuc 0) ≡ 45 ∷ 49 ∷ []) × (to_uint16 (negsuc 0) ≡ 65535)
unfolding decimal digits to_uint16
negative_run = (refl, refl)

digits_run : digits 9001 9000 [] ≡ 57 ∷ 48 ∷ 48 ∷ 48 ∷ []
unfolding digits
digits_run = refl

-- The port is cut to 1, and the hardware address to six of its eight bytes.
wide_run :
    transform_backend_list (built_of wide_entry ∷ [])
    ≡ some (record { id = endpoint wide_entry; ip = 33554442; port = 1; mac = replicate 6 9 } ∷ [])
unfolding transform_backend_list net_ipv4_to_uint32 new_backend to4 udplb.Types.uint32_le to_uint16
wide_run = refl

v6_run :
    (build_backends parse_ip parse_mac new_sha1 0 (v6_entry ∷ []) ≡ inr (built_of v6_entry ∷ []))
    × (transform_backend_list (built_of v6_entry ∷ []) ≡ none)
unfolding build_backends transform_backend_list net_ipv4_to_uint32 new_backend to4
v6_run = (refl, refl)

build_backends-BuildOutcome_example :
    BuildOutcome parse_ip parse_mac new_sha1 0
      (first_entry ∷ entry [] [] 1 ∷ [])
      (build_backends parse_ip parse_mac new_sha1 0 (first_entry ∷ entry [] [] 1 ∷ []))
build_backends-BuildOutcome_example =
    build_backends-BuildOutcome parse_ip parse_mac new_sha1 (first_entry ∷ entry [] [] 1 ∷ []) 0

long_enough : (s mac : List ℕ) → parse_mac s ≡ some mac → 6 ≤ length mac
long_enough s mac e = ground arith

first_entry-Validated : Validated parse_ip parse_mac new_sha1 first_entry
unfolding parse_ipv4_to_uint32 parse_ieee802_mac validate_uint16_port to4 udplb.Types.uint32_le
first_entry-Validated = record {
  ip = 16777226;
  mac = 1 ∷ 2 ∷ 3 ∷ 4 ∷ 5 ∷ 6 ∷ [];
  ip_accepted = refl;
  mac_accepted = refl;
  port_accepted = refl;
}

build_backends-Validated_example :
    (bs : List Backend) × (specs : List UdplbBackendSpec) × (build_backends parse_ip parse_mac
        new_sha1 0
        (disabled_entry ∷ first_entry ∷ [])
      ≡ inr bs)
    × (transform_backend_list (filter_available bs) ≡ some specs)
    × Matches
        (IsExact parse_ip parse_mac new_sha1)
        (enabled_of (disabled_entry ∷ first_entry ∷ []))
        specs
build_backends-Validated_example =
    build_backends-Validated parse_ip parse_mac new_sha1 long_enough
      (disabled_entry ∷ first_entry ∷ []) (first_entry-Validated, tt)
