-- ===== src/Types/Coordinates.antt =====
-- The coordinates of a backend and its id.
use udplb.Base.{
  ℕ, zero, suc, ◌+◌, ◌<◌, ◌≤◌, ◌≡◌, ◌≢◌, refl, ap, List, [], ◌∷◌, ◌++◌, arith, length, take, drop,
  All, All-take, All-drop, length-take, length-drop, take-append-drop, drop-drop, get_or, sym, ◌∙◌,
}
use mathlib.Core.Path.{ap₂}
use udplb.Types.{Uuid, BackendSpec, BackendStatus, uint32_le, new_backend}

abbrev pub IsBytes : List ℕ → Type 0
IsBytes = All (λ b. b < 256)

-- The digits of a little-endian number can be read off again.
uint32_le-injective :
    (xs ys : List ℕ)
    → IsBytes xs
    → IsBytes ys
    → length xs ≡ length ys
    → uint32_le xs ≡ uint32_le ys
    → xs ≡ ys
unfolding uint32_le
uint32_le-injective [] [] hx hy l e = refl
uint32_le-injective [] (y ∷ ys) hx hy l e = absurd (omega arith)
uint32_le-injective (x ∷ xs) [] hx hy l e = absurd (omega arith)
uint32_le-injective (x ∷ xs) (y ∷ ys) hx hy l e =
    ap₂ ◌∷◌ (omega arith) (uint32_le-injective xs ys hx.1 hy.1 (omega arith) (omega arith))

-- Four bytes at a time.
take-eq_of_uint32 :
    (k : ℕ) (xs ys : List ℕ)
    → IsBytes xs
    → IsBytes ys
    → length xs ≡ length ys
    → uint32_le (take 4 (drop k xs)) ≡ uint32_le (take 4 (drop k ys))
    → take 4 (drop k xs) ≡ take 4 (drop k ys)
take-eq_of_uint32 k xs ys hx hy l e =
    uint32_le-injective (take 4 (drop k xs)) (take 4 (drop k ys))
      (All-take _ 4 (drop k xs) (All-drop _ k xs hx))
      (All-take _ 4 (drop k ys) (All-drop _ k ys hy))
      (omega (
        arith,
        length-take 4 (drop k xs),
        length-take 4 (drop k ys),
        length-drop k xs,
        length-drop k ys,
      ))
      e

join4 :
    (k : ℕ) (xs ys : List ℕ)
    → take 4 (drop k xs) ≡ take 4 (drop k ys)
    → drop (k + 4) xs ≡ drop (k + 4) ys
    → drop k xs ≡ drop k ys
join4 k xs ys t d =
    sym (take-append-drop 4 (drop k xs))
    ∙ ap₂ ◌++◌ t (drop-drop 4 k xs ∙ d ∙ sym (drop-drop 4 k ys))
    ∙ take-append-drop 4 (drop k ys)

drop-all : (n : ℕ) (xs : List ℕ) → length xs ≤ n → drop n xs ≡ []
drop-all zero [] h = refl
drop-all zero (x ∷ xs) h = absurd (omega arith)
drop-all (suc n) [] h = refl
drop-all (suc n) (x ∷ xs) h = drop-all n xs (omega arith)

new_backend-coordinates_injective :
    (a b : Uuid) (s s' : BackendSpec) (t t' : BackendStatus)
    → IsBytes a
    → IsBytes b
    → length a ≡ 16
    → length b ≡ 16
    → (new_backend a s t).coordinates ≡ (new_backend b s' t').coordinates
    → a ≡ b
unfolding new_backend
new_backend-coordinates_injective a b s s' t t' ha hb la lb e = join4 0 a b (part 0 (at 0 e)) (
    join4 4 a b (part 4 (at 1 e)) (
      join4 8 a b (part 8 (at 2 e)) (
        join4 12 a b (part 12 (at 3 e))
          (drop-all 16 a (omega arith) ∙ sym (drop-all 16 b (omega arith))))))
  where
    at : {xs ys : List ℕ} (i : ℕ) → xs ≡ ys → get_or xs i 0 ≡ get_or ys i 0
    at i p = ap (λ l. get_or l i 0) p

    part :
        (k : ℕ)
        → uint32_le (take 4 (drop k a)) ≡ uint32_le (take 4 (drop k b))
        → take 4 (drop k a) ≡ take 4 (drop k b)
    part k p = take-eq_of_uint32 k a b ha hb (la ∙ sym lb) p

-- Two backends with different ids of 16 bytes have different coordinates, whatever their specs.
new_backend-coordinates_ne :
    (a b : Uuid) (s s' : BackendSpec) (t t' : BackendStatus)
    → IsBytes a
    → IsBytes b
    → length a ≡ 16
    → length b ≡ 16
    → a ≢ b
    → (new_backend a s t).coordinates ≢ (new_backend b s' t').coordinates
new_backend-coordinates_ne a b s s' t t' ha hb la lb ne e =
    ne (new_backend-coordinates_injective a b s s' t t' ha hb la lb e)
