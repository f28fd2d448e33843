-- ===== src/Config/Kernel.antt =====
-- What the kernel program is given of the configured backends, with the checks of internal/util/net.go,
-- which `buildBackends` does not use.
use mathlib.Core.Path.{subst}
use udplb.Base.{
  ℕ, suc, ◌≤◌, ◌≡◌, refl, ap, ◌∙◌, inl, inr, Option, none, some, List, [], ◌∷◌, get_elem?, length,
  take, Option-cases, arith,
}
use udplb.Types.{Uuid, Backend, new_backend}
use udplb.Net.{net_ipv4_to_uint32, ip_or_nil, parse_ipv4_to_uint32, to_array6}
use udplb.Controller.{filter_available}
use udplb.Config.{
  BackendConfig, endpoint, to_uint16, backend_of, build_backends, UdplbBackendSpec, spec_of,
  put_first, transform_backend_list,
}
use udplb.Config.Build.{enabled_of, Matches, IsBuilt, BuildOutcome, build_backends-BuildOutcome}

module _ (parse_ip : List ℕ → Option (List ℕ)) (parse_mac : List ℕ → Option (List ℕ))
    (new_sha1 : List ℕ → Uuid) where
  -- What the kernel program reads of an entry: the port cut to 16 bits and six bytes of the hardware
  -- address.
  pub record IsKernelSpec (bc : BackendConfig) (spec : UdplbBackendSpec) : Type 0 where
    pub id : spec.id ≡ new_sha1 (endpoint bc)
    pub ip : parse_ipv4_to_uint32 parse_ip bc.ip ≡ some spec.ip
    pub port : spec.port ≡ to_uint16 bc.port
    pub mac : List ℕ
    pub mac_parsed : parse_mac bc.mac ≡ some mac
    pub mac_cut : spec.mac ≡ take 6 mac

  -- A panic means that the address of some entry is not an IPv4 address.
  abbrev pub KernelOutcome : List BackendConfig → Option (List UdplbBackendSpec) → Type 0
  KernelOutcome bcs none =
      (k : ℕ) × (bc : BackendConfig) × (get_elem? bcs k ≡ some bc)
      × (parse_ipv4_to_uint32 parse_ip bc.ip ≡ none)
  KernelOutcome bcs (some specs) = Matches IsKernelSpec bcs specs

  filter_available-built :
      (bcs : List BackendConfig) (bs : List Backend)
      → Matches (IsBuilt parse_ip parse_mac new_sha1) bcs bs
      → filter_available bs ≡ bs
  unfolding filter_available new_backend
  filter_available-built [] [] m = refl
  filter_available-built [] (b ∷ bs) m = absurd m
  filter_available-built (bc ∷ bcs) [] m = absurd m
  filter_available-built (bc ∷ bcs) (b ∷ bs) (built, m) = rw (built.made) (
      ap (λ rest. backend_of parse_ip parse_mac new_sha1 bc built.ip built.mac ∷ rest)
        (filter_available-built bcs bs m))

  to_array6_le : (mac : List ℕ) → 6 ≤ length mac → to_array6 mac ≡ some (take 6 mac)
  to_array6_le mac h = ground arith

  put_first-KernelOutcome :
      (bc : BackendConfig) (bcs : List BackendConfig) (spec : UdplbBackendSpec)
      (r : Option (List UdplbBackendSpec))
      → IsKernelSpec bc spec
      → KernelOutcome bcs r
      → KernelOutcome (bc ∷ bcs) (put_first (some spec) r)
  put_first-KernelOutcome bc bcs spec none h (k, cb, at, bad) = (suc k, cb, at, bad)
  put_first-KernelOutcome bc bcs spec (some specs) h m = (h, m)

  -- The address in the kernel is what the unused `ParseIPV4ToUint32` gives.
  parse_ipv4_to_uint32-parsed :
      (s ip : List ℕ)
      → parse_ip s ≡ some ip
      → parse_ipv4_to_uint32 parse_ip s ≡ net_ipv4_to_uint32 ip
  unfolding parse_ipv4_to_uint32 net_ipv4_to_uint32
  parse_ipv4_to_uint32-parsed s ip e = rw (e, ip_or_nil) refl

  module _ (long_enough : (s mac : List ℕ) → parse_mac s ≡ some mac → 6 ≤ length mac) where
    spec_of-KernelOutcome :
        (bc : BackendConfig) (bcs : List BackendConfig) (b : Backend) (ip mac : List ℕ)
        (r : Option (List UdplbBackendSpec))
        → parse_ip bc.ip ≡ some ip
        → parse_mac bc.mac ≡ some mac
        → b ≡ backend_of parse_ip parse_mac new_sha1 bc ip mac
        → KernelOutcome bcs r
        → KernelOutcome
            (bc ∷ bcs)
            (put_first (spec_of b (net_ipv4_to_uint32 b.spec.ip) (to_array6 b.spec.mac_addr)) r)
    unfolding new_backend
    spec_of-KernelOutcome bc bcs b ip mac r e f made h =
        rw (made, to_array6_le mac (long_enough bc.mac mac f))
          (elim (Option-cases (net_ipv4_to_uint32 ip)) [
            | inl bad ↦
                rw (bad, spec_of, put_first)
                  (0, bc, refl, parse_ipv4_to_uint32-parsed bc.ip ip e ∙ bad)
            | inr (n, good) ↦
                rw (good, spec_of)
                  (put_first-KernelOutcome bc bcs _ r
                    (record {
                      id = refl;
                      ip = parse_ipv4_to_uint32-parsed bc.ip ip e ∙ good;
                      port = refl;
                      mac = mac;
                      mac_parsed = f;
                      mac_cut = refl;
                    })
                    h)
          ])

    transform-KernelOutcome :
        (bcs : List BackendConfig) (bs : List Backend)
        → Matches (IsBuilt parse_ip parse_mac new_sha1) bcs bs
        → KernelOutcome bcs (transform_backend_list bs)
    unfolding transform_backend_list
    transform-KernelOutcome [] [] m = tt
    transform-KernelOutcome [] (b ∷ bs) m = absurd m
    transform-KernelOutcome (bc ∷ bcs) [] m = absurd m
    transform-KernelOutcome (bc ∷ bcs) (b ∷ bs) (built, m) =
        spec_of-KernelOutcome bc bcs b built.ip built.mac (transform_backend_list bs)
          built.ip_parsed built.mac_parsed built.made (transform-KernelOutcome bcs bs m)

    pub transform_backend_list-KernelOutcome :
        (bcs : List BackendConfig) (bs : List Backend)
        → build_backends parse_ip parse_mac new_sha1 0 bcs ≡ inr bs
        → KernelOutcome (enabled_of bcs) (transform_backend_list (filter_available bs))
    transform_backend_list-KernelOutcome bcs bs e =
        let m =
          subst (BuildOutcome parse_ip parse_mac new_sha1 0 bcs) e
            (build_backends-BuildOutcome parse_ip parse_mac new_sha1 bcs 0) in
        rw (filter_available-built (enabled_of bcs) bs m)
          (transform-KernelOutcome (enabled_of bcs) bs m)
