-- ===== src/Config/Validated.antt =====
-- The checks of internal/util/net.go on configured entries: `buildBackends` does not use them.
use mathlib.Core.Path.{subst}
use udplb.Base.{
  ℤ, pos, negsuc, ℕ, zero, suc, ◌+◌, ◌^◌, ◌≤◌, ◌<◌, ◌≡◌, refl, sym, ap, ◌∙◌, true, inl, inr, ◌⊎◌,
  Option, none, some, List, [], ◌∷◌, get_elem?, length, take, if◌then◌else◌, Bool-cases, some_same,
  All, arith, nat_beq, nat_beq_iff,
}
use udplb.Types.{Uuid, Backend}
use udplb.Net.{
  to4, ip_or_nil, parse_ipv4_to_uint32, six_bytes, parse_ieee802_mac, validate_uint16_port,
}
use udplb.Controller.{filter_available}
use udplb.Config.{
  BackendConfig, BuildError, cannot_parse_ip, cannot_parse_mac, endpoint, to_uint16, build_backends,
  UdplbBackendSpec, transform_backend_list,
}
use udplb.Config.Build.{
  enabled_of, enabled_of-on, Matches, IsErrorOf, BuildOutcome, build_backends-BuildOutcome,
}
use udplb.Config.Kernel.{IsKernelSpec, KernelOutcome, transform_backend_list-KernelOutcome}

module _ (parse_ip : List ℕ → Option (List ℕ)) (parse_mac : List ℕ → Option (List ℕ))
    (new_sha1 : List ℕ → Uuid) where
  -- What the three checks accept.
  pub record Validated (bc : BackendConfig) : Type 0 where
    pub ip : ℕ
    pub mac : List ℕ
    pub ip_accepted : parse_ipv4_to_uint32 parse_ip bc.ip ≡ some ip
    pub mac_accepted : parse_ieee802_mac parse_mac bc.mac ≡ some mac
    pub port_accepted : validate_uint16_port bc.port ≡ true

  -- The kernel program reads exactly what the entry says.
  abbrev pub IsExact : BackendConfig → UdplbBackendSpec → Type 0
  IsExact bc spec =
      (parse_ipv4_to_uint32 parse_ip bc.ip ≡ some spec.ip)
      × (parse_ieee802_mac parse_mac bc.mac ≡ some spec.mac)
      × (pos spec.port ≡ bc.port)
      × (spec.id ≡ new_sha1 (endpoint bc))

  enabled_of-at :
      (P : BackendConfig → Type 0) (bcs : List BackendConfig) (k : ℕ) (bc : BackendConfig)
      → All P (enabled_of bcs)
      → get_elem? bcs k ≡ some bc
      → bc.enabled ≡ true
      → P bc
  enabled_of-at P [] k bc h at on = absurd (ground arith)
  enabled_of-at P (cb ∷ bcs) zero bc h at on =
      let same = some_same at in
      subst P same (subst (All P) (enabled_of-on cb bcs (ap (λ x. x.enabled) same ∙ on)) h).0
  enabled_of-at P (cb ∷ bcs) (suc k) bc h at on = enabled_of-at P bcs k bc (if_rest cb h) at on
    where
      if_rest : (cb : BackendConfig) → All P (enabled_of (cb ∷ bcs)) → All P (enabled_of bcs)
      if_rest cb h = elim (Bool-cases cb.enabled) [
        | inl on ↦ (subst (All P) (enabled_of-on cb bcs on) h).1
        | inr off ↦ rw (off, if◌then◌else◌) at h
      ]

  take_six : (mac : List ℕ) → length mac ≡ 6 → take 6 mac ≡ mac
  take_six (a ∷ b ∷ c ∷ d ∷ e ∷ f ∷ []) h = refl
  take_six _ h = ground arith

  six_bytes-some :
      (o : Option (List ℕ)) (m : List ℕ) → six_bytes o ≡ some m → (o ≡ some m) × (length m ≡ 6)
  six_bytes-some none m h = absurd (ground arith)
  six_bytes-some (some mac) m h = elim (Bool-cases (nat_beq (length mac) 6)) [
    | inl e ↦
        let same : some mac ≡ some m = rw (e, if◌then◌else◌) at h in
        (same, sym (ap length (some_same same)) ∙ (nat_beq_iff (length mac) 6).0 e)
    | inr e ↦ absurd (ground (arith, (rw (e, if◌then◌else◌) at h)))
  ]

  Validated-parse_mac :
      (bc : BackendConfig) (v : Validated bc) → (parse_mac bc.mac ≡ some v.mac) × (length v.mac ≡ 6)
  unfolding parse_ieee802_mac
  Validated-parse_mac bc v = six_bytes-some (parse_mac bc.mac) v.mac v.mac_accepted

  Validated-not_reported :
      (i : ℕ) (bc : BackendConfig) (e : BuildError)
      → Validated bc
      → ¬ IsErrorOf parse_ip parse_mac new_sha1 i bc e
  unfolding parse_ipv4_to_uint32 to4
  Validated-not_reported i bc (cannot_parse_ip j) v (_, bad) =
      let h : none ≡ some v.ip = rw (bad, ip_or_nil) at v.ip_accepted in ground arith
  Validated-not_reported i bc (cannot_parse_mac j) v (_, _, bad) =
      let h = sym bad ∙ (Validated-parse_mac bc v).0 in ground arith

  -- An accepted port is kept by the cut to 16 bits.
  validate_uint16_port-to_uint16 :
      (port : ℤ) → validate_uint16_port port ≡ true → pos (to_uint16 port) ≡ port
  unfolding validate_uint16_port to_uint16
  validate_uint16_port-to_uint16 (pos n) v =
      let small : n < 2 ^ 16 = ground (arith, v) in ap pos (omega (arith, small))
  validate_uint16_port-to_uint16 (negsuc n) v = absurd (ground arith)

  Matches-IsExact :
      (bcs : List BackendConfig) (specs : List UdplbBackendSpec)
      → All Validated bcs
      → Matches (IsKernelSpec parse_ip parse_mac new_sha1) bcs specs
      → Matches IsExact bcs specs
  Matches-IsExact [] [] h m = tt
  Matches-IsExact [] (spec ∷ specs) h m = absurd m
  Matches-IsExact (bc ∷ bcs) [] h m = absurd m
  Matches-IsExact (bc ∷ bcs) (spec ∷ specs) (v, h) (s, m) =
      let (parsed, six) = Validated-parse_mac bc v in
      let same = some_same (sym s.mac_parsed ∙ parsed) in
      let whole : spec.mac ≡ v.mac = s.mac_cut ∙ ap (take 6) same ∙ take_six v.mac six in
      (
        (
          s.ip,
          v.mac_accepted ∙ ap some (sym whole),
          ap pos s.port ∙ validate_uint16_port-to_uint16 bc.port v.port_accepted,
          s.id,
        ),
        Matches-IsExact bcs specs h m,
      )

  All-get_elem? :
      (bcs : List BackendConfig) (k : ℕ) (bc : BackendConfig)
      → All Validated bcs
      → get_elem? bcs k ≡ some bc
      → Validated bc
  All-get_elem? [] k bc h at_k = absurd (ground arith)
  All-get_elem? (cb ∷ bcs) zero bc h at_k = subst Validated (some_same at_k) h.0
  All-get_elem? (cb ∷ bcs) (suc k) bc h at_k = All-get_elem? bcs k bc h.1 at_k

  -- If hardware addresses parse to at least six bytes, and the three checks accept every enabled entry,
  -- then `buildBackends` accepts them, handing what it built to the BPF structures does not panic, and
  -- the kernel program reads for each enabled entry, in order, the address and the hardware address
  -- that the checks gave, the port of the entry, and its id.
  pub build_backends-Validated :
      (long_enough : (s mac : List ℕ) → parse_mac s ≡ some mac → 6 ≤ length mac)
      (bcs : List BackendConfig)
      → All Validated (enabled_of bcs)
      → (bs : List Backend) × (specs : List UdplbBackendSpec) × (build_backends parse_ip parse_mac
            new_sha1 0 bcs
          ≡ inr bs)
        × (transform_backend_list (filter_available bs) ≡ some specs)
        × Matches IsExact (enabled_of bcs) specs
  build_backends-Validated long_enough bcs h =
      built (build_backends parse_ip parse_mac new_sha1 0 bcs) refl
        (build_backends-BuildOutcome parse_ip parse_mac new_sha1 bcs 0)
    where
      given :
          (bs : List Backend) (o : Option (List UdplbBackendSpec))
          → transform_backend_list (filter_available bs) ≡ o
          → KernelOutcome parse_ip parse_mac new_sha1 (enabled_of bcs) o
          → (specs : List UdplbBackendSpec) × (transform_backend_list (filter_available bs)
              ≡ some specs)
            × Matches IsExact (enabled_of bcs) specs
      given bs none e (k, bc, at_k, bad) =
          let v = All-get_elem? (enabled_of bcs) k bc h at_k in
          let no = sym bad ∙ v.ip_accepted in absurd (ground arith)
      given bs (some specs) e m = (specs, e, Matches-IsExact (enabled_of bcs) specs h m)

      built :
          (r : BuildError ⊎ List Backend)
          → build_backends parse_ip parse_mac new_sha1 0 bcs ≡ r
          → BuildOutcome parse_ip parse_mac new_sha1 0 bcs r
          → (bs : List Backend) × (specs : List UdplbBackendSpec) × (build_backends parse_ip
                parse_mac new_sha1 0 bcs
              ≡ inr bs)
            × (transform_backend_list (filter_available bs) ≡ some specs)
            × Matches IsExact (enabled_of bcs) specs
      built (inl err) e (k, bc, at_k, on, bad, _) =
          absurd
            (Validated-not_reported (0 + k) bc err (enabled_of-at Validated bcs k bc h at_k on) bad)
      built (inr bs) e m =
          let (specs, t, exact) = given bs (transform_backend_list (filter_available bs)) refl (
            transform_backend_list-KernelOutcome parse_ip parse_mac new_sha1 long_enough bcs bs
              e) in
          (bs, specs, e, t, exact)
