-- ===== src/Net.antt =====
-- internal/util/net.go: addresses read for the BPF structures. The parsers of Go's package net are
-- parameters: `parse_ip` gives the bytes of an address, `parse_mac` those of a hardware address. A `nil`
-- address is the empty list, and `none` is an error, or a panic where the comment says so.
use udplb.Base.{
  ℤ, pos, negsuc, false, ℕ, ◌^◌, Bool, ◌&&◌, Option, none, some, List, [], ◌∷◌, ltb, leb, nat_beq,
  if◌then◌else◌, length, take, drop, ◌==◌, bytes_comparable,
}
use udplb.Types.{uint32_le}

-- The prefix of an IPv4 address in sixteen bytes.
abbrev pub v4_in_v6_prefix : List ℕ
v4_in_v6_prefix = 0 ∷ 0 ∷ 0 ∷ 0 ∷ 0 ∷ 0 ∷ 0 ∷ 0 ∷ 0 ∷ 0 ∷ 255 ∷ 255 ∷ []

-- `net.IP.To4`; `none` is `nil`.
unfoldable pub to4 : List ℕ → Option (List ℕ)
to4 ip =
    if nat_beq (length ip) 4
    then some ip
    else if nat_beq (length ip) 16 && (take 12 ip == v4_in_v6_prefix)
    then some (drop 12 ip)
    else none

abbrev pub uint32_of : Option (List ℕ) → Option ℕ
uint32_of none = none
uint32_of (some ipv4) = some (uint32_le ipv4)

-- `NetIPv4ToUint32`: `none` is the panic of a read past the end.
unfoldable pub net_ipv4_to_uint32 : List ℕ → Option ℕ
unfolding to4
net_ipv4_to_uint32 ip = uint32_of (to4 ip)

-- The address that `ParseIP` gives.
abbrev pub ip_or_nil : Option (List ℕ) → List ℕ
ip_or_nil none = []
ip_or_nil (some ip) = ip

unfoldable pub parse_ipv4_to_uint32 : (List ℕ → Option (List ℕ)) → List ℕ → Option ℕ
unfolding to4
parse_ipv4_to_uint32 parse_ip s = uint32_of (to4 (ip_or_nil (parse_ip s)))

abbrev pub six_bytes : Option (List ℕ) → Option (List ℕ)
six_bytes none = none
six_bytes (some mac) = if nat_beq (length mac) 6 then some mac else none

unfoldable pub parse_ieee802_mac : (List ℕ → Option (List ℕ)) → List ℕ → Option (List ℕ)
parse_ieee802_mac parse_mac s = six_bytes (parse_mac s)

-- `ValidateUint16Port`: whether it returns no error.
unfoldable pub validate_uint16_port : ℤ → Bool
validate_uint16_port (pos port) = leb 1000 port && ltb port (2 ^ 16)
validate_uint16_port (negsuc n) = false

-- The conversion of a slice to an array of six bytes: `none` is the panic of a shorter slice.
abbrev pub to_array6 : List ℕ → Option (List ℕ)
to_array6 mac = if ltb (length mac) 6 then none else some (take 6 mac)
