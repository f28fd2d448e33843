-- ===== src/Config/Build.antt =====
-- What `buildBackends` makes of a list of entries.
use mathlib.Core.Path.{subst}
use udplb.Base.{
  ℕ, zero, suc, ◌+◌, ◌≡◌, refl, Bool, true, false, ◌⊎◌, inl, inr, Option, none, some, List, [], ◌∷◌,
  get_elem?, take, if◌then◌else◌, Option-cases, some_same, All, arith,
}
use udplb.Types.{Uuid, Backend}
use udplb.Config.{
  BackendConfig, BuildError, cannot_parse_ip, cannot_parse_mac, backend_of, appended, build_entry,
  build_backends,
}

-- The enabled entries, in order.
abbrev pub enabled_of : List BackendConfig → List BackendConfig
enabled_of [] = []
enabled_of (bc ∷ bcs) = let rest = enabled_of bcs in if bc.enabled then bc ∷ rest else rest

-- Two lists of one length whose cells are related, place by place.
abbrev pub Matches {ℓ κ} : {A : Type ℓ} {B : Type κ} → (A → B → Type 0) → List A → List B → Type 0
Matches R [] [] = Unit
Matches R [] (b ∷ ys) = ⊥
Matches R (a ∷ xs) [] = ⊥
Matches R (a ∷ xs) (b ∷ ys) = R a b × Matches R xs ys

pub get_elem?-Matches {ℓ κ} :
    {A : Type ℓ} {B : Type κ} (R : A → B → Type 0) (xs : List A) (ys : List B) (i : ℕ) (b : B)
    → Matches R xs ys
    → get_elem? ys i ≡ some b
    → (a : A) × (get_elem? xs i ≡ some a) × R a b
get_elem?-Matches R [] [] i b m e = absurd (ground arith)
get_elem?-Matches R [] (c ∷ ys) i b m e = absurd m
get_elem?-Matches R (a ∷ xs) [] i b m e = absurd m
get_elem?-Matches R (a ∷ xs) (c ∷ ys) zero b m e = (a, refl, subst (R a) (some_same e) m.0)
get_elem?-Matches R (a ∷ xs) (c ∷ ys) (suc i) b m e = get_elem?-Matches R xs ys i b m.1 e

pub if_on {ℓ} : {A : Type ℓ} (b : Bool) (x y : A) → b ≡ true → (if b then x else y) ≡ x
if_on b x y e = rw (e, if◌then◌else◌) refl

if_cases {ℓ} :
    {A : Type ℓ} (P : A → Type 0) (b : Bool) (x y : A)
    → (b ≡ true → P x)
    → (b ≡ false → P y)
    → P (if b then x else y)
if_cases P true x y f g = f refl
if_cases P false x y f g = g refl

pub enabled_of-on :
    (bc : BackendConfig) (bcs : List BackendConfig)
    → bc.enabled ≡ true
    → enabled_of (bc ∷ bcs) ≡ bc ∷ enabled_of bcs
enabled_of-on bc bcs on = if_on bc.enabled (bc ∷ enabled_of bcs) (enabled_of bcs) on

module _ (parse_ip : List ℕ → Option (List ℕ)) (parse_mac : List ℕ → Option (List ℕ))
    (new_sha1 : List ℕ → Uuid) where
  -- The backend is built from the entry.
  pub record IsBuilt (bc : BackendConfig) (b : Backend) : Type 0 where
    pub ip : List ℕ
    pub mac : List ℕ
    pub ip_parsed : parse_ip bc.ip ≡ some ip
    pub mac_parsed : parse_mac bc.mac ≡ some mac
    pub made : b ≡ backend_of parse_ip parse_mac new_sha1 bc ip mac

  abbrev pub Parses : BackendConfig → Type 0
  Parses bc =
      ((ip : List ℕ) × (parse_ip bc.ip ≡ some ip))
      × ((mac : List ℕ) × (parse_mac bc.mac ≡ some mac))

  -- The error of the entry at an index.
  abbrev pub IsErrorOf : ℕ → BackendConfig → BuildError → Type 0
  IsErrorOf i bc (cannot_parse_ip j) = (j ≡ i) × (parse_ip bc.ip ≡ none)
  IsErrorOf i bc (cannot_parse_mac j) =
      (j ≡ i) × ((ip : List ℕ) × (parse_ip bc.ip ≡ some ip)) × (parse_mac bc.mac ≡ none)

  -- Either the first enabled entry that does not parse is reported, or each enabled entry is built.
  abbrev pub BuildOutcome : ℕ → List BackendConfig → BuildError ⊎ List Backend → Type 0
  BuildOutcome i bcs (inl e) =
      (k : ℕ) × (bc : BackendConfig) × (get_elem? bcs k ≡ some bc)
      × (bc.enabled ≡ true)
      × IsErrorOf (i + k) bc e
      × All Parses (enabled_of (take k bcs))
  BuildOutcome i bcs (inr bs) = Matches IsBuilt (enabled_of bcs) bs

  skipped :
      (i : ℕ) (bc : BackendConfig) (bcs : List BackendConfig) (r : BuildError ⊎ List Backend)
      → bc.enabled ≡ false
      → BuildOutcome (i + 1) bcs r
      → BuildOutcome i (bc ∷ bcs) r
  skipped i bc bcs (inl e) off (k, cb, at, on, err, before) = (
    suc k,
    cb,
    at,
    on,
    subst (λ n. IsErrorOf n cb e) (omega arith) err,
    rw (off, if◌then◌else◌) before,
  )
  skipped i bc bcs (inr bs) off h = rw (off, if◌then◌else◌) h

  appended-BuildOutcome :
      (i : ℕ) (bc : BackendConfig) (bcs : List BackendConfig) (b : Backend)
      (r : BuildError ⊎ List Backend)
      → bc.enabled ≡ true
      → IsBuilt bc b
      → BuildOutcome (i + 1) bcs r
      → BuildOutcome i (bc ∷ bcs) (appended parse_ip parse_mac new_sha1 b r)
  appended-BuildOutcome i bc bcs b (inl e) on built (k, cb, at, on', err, before) = (
    suc k,
    cb,
    at,
    on',
    subst (λ n. IsErrorOf n cb e) (omega arith) err,
    rw (enabled_of-on bc (take k bcs) on)
        (((built.ip, built.ip_parsed), (built.mac, built.mac_parsed)), before),
  )
  appended-BuildOutcome i bc bcs b (inr bs) on built h = rw (enabled_of-on bc bcs on) (built, h)

  build_entry-BuildOutcome :
      (i : ℕ) (bc : BackendConfig) (bcs : List BackendConfig) (r : BuildError ⊎ List Backend)
      → bc.enabled ≡ true
      → BuildOutcome (i + 1) bcs r
      → BuildOutcome i
          (bc ∷ bcs)
          (build_entry parse_ip parse_mac new_sha1 i bc (parse_ip bc.ip) (parse_mac bc.mac) r)
  build_entry-BuildOutcome i bc bcs r on h = elim (Option-cases (parse_ip bc.ip)) [
    | inl e ↦ rw (e, build_entry) (0, bc, refl, on, (omega arith, e), tt)
    | inr (ip, e) ↦ elim (Option-cases (parse_mac bc.mac)) [
      | inl f ↦ rw (e, f, build_entry) (0, bc, refl, on, (omega arith, (ip, e), f), tt)
      | inr (mac, f) ↦
          rw (e, f, build_entry)
            (appended-BuildOutcome i bc bcs (backend_of parse_ip parse_mac new_sha1 bc ip mac) r on
              (record { ip = ip; mac = mac; ip_parsed = e; mac_parsed = f; made = refl }) h)
    ]
  ]

  -- `buildBackends` either reports the first enabled entry whose address or hardware address does not
  -- parse, by its index and with the address first, or gives one backend for each enabled entry, in
  -- order, made of what the entry parses to and of the id of its address and port.
  pub build_backends-BuildOutcome :
      (bcs : List BackendConfig) (i : ℕ)
      → BuildOutcome i bcs (build_backends parse_ip parse_mac new_sha1 i bcs)
  unfolding build_backends
  build_backends-BuildOutcome [] i = tt
  build_backends-BuildOutcome (bc ∷ bcs) i =
      let rest = build_backends parse_ip parse_mac new_sha1 (i + 1) bcs in
      let h = build_backends-BuildOutcome bcs (i + 1) in
      if_cases (BuildOutcome i (bc ∷ bcs)) bc.enabled
        (build_entry parse_ip parse_mac new_sha1 i bc (parse_ip bc.ip) (parse_mac bc.mac) rest) rest
        (λ on. build_entry-BuildOutcome i bc bcs rest on h) (λ off. skipped i bc bcs rest off h)
