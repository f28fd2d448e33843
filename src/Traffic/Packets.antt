-- ===== src/Traffic/Packets.antt =====
-- A packet built is read back.
use udplb.Base.{
  ℕ, zero, suc, ◌+◌, ◌≤◌, ◌≡◌, refl, ap, ◌∙◌, some, List, [], ◌∷◌, ◌++◌, arith, length, take, drop,
  replicate, length-append, length-replicate, length-take, length-drop, if◌then◌else◌, ge→ltb, sym,
}
use udplb.Types.{Uuid, uint32_le}
use udplb.Traffic.{packet_prefix, copy, build_packet, parse_packet, put_uint32_le}

-- A full copy.
copy_all : (dst src : List ℕ) → length dst ≡ length src → copy dst src ≡ src
copy_all [] [] h = refl
copy_all [] (s ∷ src) h = absurd (omega arith)
copy_all (d ∷ dst) [] h = absurd (omega arith)
copy_all (d ∷ dst) (s ∷ src) h = ap (λ l. s ∷ l) (copy_all dst src (omega arith))

take-append : (n : ℕ) (xs ys : List ℕ) → length xs ≡ n → take n (xs ++ ys) ≡ xs
take-append zero [] ys h = refl
take-append zero (x ∷ xs) ys h = absurd (omega arith)
take-append (suc n) [] ys h = absurd (omega arith)
take-append (suc n) (x ∷ xs) ys h = ap (λ l. x ∷ l) (take-append n xs ys (omega arith))

pub take_all : (n : ℕ) (xs : List ℕ) → length xs ≤ n → take n xs ≡ xs
take_all zero [] h = refl
take_all zero (x ∷ xs) h = absurd (omega arith)
take_all (suc n) [] h = refl
take_all (suc n) (x ∷ xs) h = ap (λ l. x ∷ l) (take_all n xs (omega arith))

abbrev zeros : ℕ → List ℕ
zeros k = replicate (4 + 16 + k) 0

-- The payload is what `make` left there.
abbrev payload : ℕ → List ℕ
payload k = drop 20 (zeros k)

build_packet-append :
    (sid : Uuid) (k : ℕ)
    → length sid ≡ 16
    → build_packet sid k ≡ put_uint32_le packet_prefix ++ (sid ++ payload k)
unfolding build_packet
build_packet-append sid k h =
    ap (λ l. put_uint32_le packet_prefix ++ (l ++ payload k))
      (copy_all (take 16 (drop 4 (zeros k))) sid (
        omega (
          arith,
          h,
          length-take 16 (drop 4 (zeros k)),
          length-drop 4 (zeros k),
          length-replicate {A = ℕ} (4 + 16 + k) 0,
        )))

pub length-build_packet :
    (sid : Uuid) (k : ℕ) → length sid ≡ 16 → length (build_packet sid k) ≡ 20 + k
length-build_packet sid k h =
    ap length (build_packet-append sid k h)
    ∙ omega (
      arith,
      h,
      length-append (put_uint32_le packet_prefix) (sid ++ payload k),
      length-append sid (payload k),
      length-drop 20 (zeros k),
      length-replicate {A = ℕ} (4 + 16 + k) 0,
    )

-- What the generator builds for an id of sixteen bytes, the echo backend reads as that id.
pub parse_packet-build_packet :
    (sid : Uuid) (k : ℕ) → length sid ≡ 16 → parse_packet (build_packet sid k) ≡ some sid
unfolding parse_packet uint32_le
parse_packet-build_packet sid k h =
    rw
      (
        ge→ltb (length (build_packet sid k)) 20
            (λ small. omega (arith, small, length-build_packet sid k h)),
        if◌then◌else◌,
      )
      (rw (build_packet-append sid k h, take-append 16 sid (payload k) h)
        (ap some (copy_all (replicate 16 0) sid (sym h))))
