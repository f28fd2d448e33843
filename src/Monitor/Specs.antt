-- ===== src/Monitor/Specs.antt =====
-- internal/adapter/monitor/backend_spec_map.go: `NewBackendSpecList`, and what it says of the backends
-- that `buildBackends` of internal/controller/controller.go builds. The parsers of package net, and
-- `uuid.NewSHA1` in the namespaces of the two callers, are parameters.
use mathlib.Core.Path.{subst}
use udplb.Base.{
  ℕ, ◌≡◌, refl, sym, ap, ◌∙◌, Bool, true, false, Option, none, some, List, [], ◌∷◌, Map, lookup,
  insert, lookup-insert, ◌==◌, bytes_comparable, if◌then◌else◌, inl, inr, Bool-cases,
}
use udplb.Types.{Uuid, Backend, BackendSpec, available, new_backend}
use udplb.Config.{BackendConfig, endpoint, build_backends}
use udplb.Config.Build.{
  enabled_of, enabled_of-on, if_on, Matches, IsBuilt, BuildOutcome, build_backends-BuildOutcome,
}

module _ (parse_ip : List ℕ → Option (List ℕ)) (parse_mac : List ℕ → Option (List ℕ))
    (dns_sha1 : List ℕ → Uuid) where
  -- An enabled entry; one that does not parse is skipped.
  abbrev pub put_spec :
      BackendConfig
      → Option (List ℕ)
      → Option (List ℕ)
      → Map Uuid BackendSpec
      → Map Uuid BackendSpec
  put_spec bc none mac specs = specs
  put_spec bc (some ip) none specs = specs
  put_spec bc (some ip) (some mac) specs =
      insert (dns_sha1 (endpoint bc))
        (record { ip = ip; port = bc.port; mac_addr = mac; state = available }) specs

  -- The loop of `NewBackendSpecList`, from the map of the entries before.
  unfoldable pub spec_map_from : List BackendConfig → Map Uuid BackendSpec → Map Uuid BackendSpec
  spec_map_from [] specs = specs
  spec_map_from (bc ∷ bcs) specs =
      spec_map_from bcs
        (if bc.enabled then put_spec bc (parse_ip bc.ip) (parse_mac bc.mac) specs else specs)

  abbrev pub or_before : Option BackendSpec → Option BackendSpec → Option BackendSpec
  or_before (some spec) before = some spec
  or_before none before = before

  -- The spec of the last backend whose entry has the id, if there is one.
  abbrev pub last_spec : Uuid → List BackendConfig → List Backend → Option BackendSpec
  last_spec id [] bs = none
  last_spec id (bc ∷ bcs) [] = none
  last_spec id (bc ∷ bcs) (b ∷ bs) =
      or_before (last_spec id bcs bs) (if dns_sha1 (endpoint bc) == id then some b.spec else none)

  or_before_if :
      (c : Bool) (last before : Option BackendSpec) (spec : BackendSpec)
      → or_before last (if c then some spec else before)
        ≡ or_before (or_before last (if c then some spec else none)) before
  or_before_if c (some l) before spec = refl
  or_before_if true none before spec = refl
  or_before_if false none before spec = refl

  module _ (url_sha1 : List ℕ → Uuid) where
    abbrev Built : List BackendConfig → List Backend → Type 0
    Built bcs bs = Matches (IsBuilt parse_ip parse_mac url_sha1) bcs bs

    abbrev Agrees : Uuid → List BackendConfig → Type 0
    Agrees id bcs =
        (bs : List Backend) (specs : Map Uuid BackendSpec)
        → Built (enabled_of bcs) bs
        → lookup id (spec_map_from bcs specs)
          ≡ or_before (last_spec id (enabled_of bcs) bs) (lookup id specs)

    enabled_entry :
        (id : Uuid) (bc : BackendConfig) (bcs : List BackendConfig) (bs : List Backend)
        (specs : Map Uuid BackendSpec)
        → Agrees id bcs
        → Built (bc ∷ enabled_of bcs) bs
        → lookup id (spec_map_from bcs (put_spec bc (parse_ip bc.ip) (parse_mac bc.mac) specs))
          ≡ or_before (last_spec id (bc ∷ enabled_of bcs) bs) (lookup id specs)
    unfolding new_backend
    enabled_entry id bc bcs [] specs h m = absurd m
    enabled_entry id bc bcs (b ∷ bs) specs h (built, m) =
        let key = dns_sha1 (endpoint bc) in
        let spec : BackendSpec = record {
          ip = built.ip;
          port = bc.port;
          mac_addr = built.mac;
          state = available;
        } in
        let same : b.spec ≡ spec = ap (λ x. x.spec) built.made in
        rw (built.ip_parsed, built.mac_parsed, put_spec, same)
          (h bs (insert key spec specs) m
            ∙ ap (or_before (last_spec id (enabled_of bcs) bs)) (lookup-insert key id spec specs)
            ∙ or_before_if (key == id) (last_spec id (enabled_of bcs) bs) (lookup id specs) spec)

    lookup-spec_map_from : (id : Uuid) (bcs : List BackendConfig) → Agrees id bcs
    unfolding spec_map_from
    lookup-spec_map_from id [] [] specs m = refl
    lookup-spec_map_from id [] (b ∷ bs) specs m = absurd m
    lookup-spec_map_from id (bc ∷ bcs) bs specs m = elim (Bool-cases bc.enabled) [
      | inr off ↦
          rw (off, if◌then◌else◌)
            (lookup-spec_map_from id bcs bs specs (rw (off, if◌then◌else◌) at m))
      | inl on ↦
          ap (λ sp. lookup id (spec_map_from bcs sp))
            (if_on bc.enabled (put_spec bc (parse_ip bc.ip) (parse_mac bc.mac) specs) specs on)
          ∙ enabled_entry id bc bcs bs specs (lookup-spec_map_from id bcs)
              (subst (λ l. Built l bs) (enabled_of-on bc bcs on) m)
          ∙ ap (λ l. or_before (last_spec id l bs) (lookup id specs))
              (sym (enabled_of-on bc bcs on))
    ]

    -- For a configuration that `buildBackends` accepts, the map of `NewBackendSpecList` has for each id
    -- the spec of the last of the built backends whose entry has that id, and nothing else.
    pub spec_map_from-build_backends :
        (bcs : List BackendConfig) (bs : List Backend)
        → build_backends parse_ip parse_mac url_sha1 0 bcs ≡ inr bs
        → (id : Uuid) → lookup id (spec_map_from bcs []) ≡ last_spec id (enabled_of bcs) bs
    spec_map_from-build_backends bcs bs e id =
        let m =
          subst (BuildOutcome parse_ip parse_mac url_sha1 0 bcs) e
            (build_backends-BuildOutcome parse_ip parse_mac url_sha1 bcs 0) in
        lookup-spec_map_from id bcs bs [] m ∙ or_before-none (last_spec id (enabled_of bcs) bs)
      where
        or_before-none : (o : Option BackendSpec) → or_before o none ≡ o
        or_before-none none = refl
        or_before-none (some spec) = refl
