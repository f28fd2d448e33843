-- ===== src/Rlt/NaiveFib/Equiv.antt =====
-- `NaiveFibLookupTable` against `SimpleLookupTable`.
use Prim.Native.Nat.{◌*◌}
use native.Mathlib.Decide.{dec_lt}
use native.Mathlib.Nat.{mul-add-mod_self_right, mod-eq_of_lt, div-add-mod, mod-lt, div-le_self}
use udplb.Base.{
  ℕ, zero, suc, ◌+◌, ◌/◌, ◌%◌, ◌^◌, ◌<◌, ◌≤◌, ◌≡◌, refl, ◌⊎◌, inl, inr, Bool, true, false, some,
  List, arith, ltb, if◌then◌else◌, get_or, set, get_or-set, length, length-set, length-replicate,
  get_or-replicate, get_or-replicate_lt, lt→ltb, ge→ltb, ◌∙◌,
}
use udplb.Rlt.Simple.{simple_from, simple_lookup_table}
use udplb.Rlt.NaiveFib.{
  dec32, Cursor, next_entry, decremented, naive_step, naive_from, naive_fib_lookup_table,
  start_cursor,
}

-- How often an entry has been used in the running turn.
abbrev turn : ℕ → ℕ → ℕ
turn current e = if ltb e current then 1 else 0

-- After `a` whole turns over the `n` entries: each entry has its share less its uses, and the first
-- entry is banned only when its share is spent. `share` is `m / n + 1`.
record Inv (n share a : ℕ) (c : Cursor) : Type 0 where
  first : (c.j ≡ 0) × (c.k ≡ 0)
  inside : c.current_entry < n
  shares : length c.distribution ≡ n
  bans : length c.ban_list ≡ n
  left : (e : ℕ) → e < n → get_or c.distribution e 0 + a + turn c.current_entry e ≡ share
  banned : get_or c.ban_list 0 false ≡ true → get_or c.distribution 0 0 ≡ 0
  fits : share < 2 ^ 32

-- The cursor of the next round.
abbrev advanced : ℕ → Cursor → Cursor
advanced n c = record c {
  j = 0;
  k = 0;
  current_entry = if ltb (c.current_entry + 1) n then c.current_entry + 1 else 0;
}

abbrev turns : ℕ → ℕ → Cursor → ℕ
turns n a c = if ltb (c.current_entry + 1) n then a else a + 1

next_entry-advanced :
    (n : ℕ) (c : Cursor)
    → c.j ≡ 0
    → (c.current_entry + 1 < n) ⊎ (get_or c.ban_list 0 false ≡ false)
    → next_entry 2 n c ≡ some (advanced n c)
unfolding next_entry
next_entry-advanced n c j h = ground arith

-- The cursor with one use of the current entry taken off its share, and the bans `b`.
abbrev used : Cursor → List Bool → Cursor
used c b = record (decremented c) { ban_list = b }

used-share :
    (n share a : ℕ) (c : Cursor)
    → Inv n share a c
    → a < share
    → get_or (decremented c).distribution c.current_entry 0 + a + 1 ≡ share
used-share n share a c v h = ground (
  arith,
  v.left c.current_entry v.inside,
  get_or-set c.distribution c.current_entry c.current_entry
      (dec32 (get_or c.distribution c.current_entry 0)) 0,
)

used-left :
    (n share a : ℕ) (c : Cursor) (b : List Bool)
    → Inv n share a c
    → a < share
    → (e : ℕ) → e < n
    → get_or (used c b).distribution e 0
        + turns n a c
        + turn (advanced n (used c b)).current_entry e
      ≡ share
used-left n share a c b v h e he = ground (
  arith,
  v.left e he,
  v.left c.current_entry v.inside,
  get_or-set c.distribution c.current_entry e (dec32 (get_or c.distribution c.current_entry 0)) 0,
)

advanced-Inv :
    (n share a : ℕ) (c : Cursor) (b : List Bool)
    → Inv n share a c
    → a < share
    → length b ≡ n
    → (get_or b 0 false ≡ true → get_or (used c b).distribution 0 0 ≡ 0)
    → Inv n share (turns n a c) (advanced n (used c b))
advanced-Inv n share a c b v h lb hb = record {
  first = (refl, refl);
  inside = let i = v.inside in ground arith;
  shares = length-set _ _ _ ∙ v.shares;
  bans = lb;
  left = used-left n share a c b v h;
  banned = hb;
  fits = v.fits;
}

-- The bans after a round.
abbrev new_bans : Cursor → List Bool
new_bans c =
    if ltb (get_or (decremented c).distribution c.current_entry 0) 1
    then set c.ban_list c.current_entry true
    else c.ban_list

new_bans-banned :
    (n share a : ℕ) (c : Cursor)
    → Inv n share a c
    → a < share
    → get_or (new_bans c) 0 false ≡ true
    → get_or (used c (new_bans c)).distribution 0 0 ≡ 0
new_bans-banned n share a c v h e = ground (
  arith,
  v.inside,
  v.bans,
  v.shares,
  v.banned,
  v.left c.current_entry v.inside,
  get_or-set c.ban_list c.current_entry 0 true false,
  get_or-set c.distribution c.current_entry 0 (dec32 (get_or c.distribution c.current_entry 0)) 0,
)

length-new_bans : (n : ℕ) (c : Cursor) → length c.ban_list ≡ n → length (new_bans c) ≡ n
length-new_bans n c e = ground (arith, length-set c.ban_list c.current_entry true)

-- A jump back to `nextentry` is never needed while entries are left to fill.
no_jump :
    (n share a : ℕ) (c : Cursor)
    → Inv n share a c
    → a < share
    → (c.current_entry + 1 < n) ⊎ (a + 1 < share)
    → (c.current_entry + 1 < n) ⊎ (get_or (new_bans c) 0 false ≡ false)
no_jump n share a c v h room =
    ground
      (arith, v.inside, new_bans-banned n share a c v h, used-left n share a c (new_bans c) v h 0)

naive_step-advanced :
    (n share a : ℕ) (c : Cursor)
    → Inv n share a c
    → a < share
    → (c.current_entry + 1 < n) ⊎ (a + 1 < share)
    → naive_step n c ≡ some (advanced n (used c (new_bans c)))
unfolding naive_step
naive_step-advanced n share a c v h room = ground (arith, v.first, no_jump n share a c v h room)

mul-lt-cancel : (a b n : ℕ) → a * n < b * n → a < b
mul-lt-cancel a b n h = elim (dec_lt a b) [ yes p ↦ p | no p ↦ absurd (no_less p) ]
  where
    no_less : ¬ (a < b) → ⊥
    no_less p = let q : b ≤ a = omega arith in grind arith

-- A round is left: either the turn goes on, or there is a share for another turn.
round_left :
    (n share a current k : ℕ)
    → current < n
    → a * n + current + suc k < share * n
    → (a < share) × ((current + 1 < n) ⊎ (a + 1 < share))
round_left n share a current k i h = (
  mul-lt-cancel a share n (omega arith),
  elim (dec_lt (current + 1) n) [
    | yes p ↦ inl p
    | no p ↦ inr (mul-lt-cancel (a + 1) share n (omega arith))
  ],
)

next_index :
    (n a current : ℕ)
    → current < n
    → (if ltb (current + 1) n then a else a + 1) * n
        + (if ltb (current + 1) n then current + 1 else 0)
      ≡ a * n + current + 1
next_index n a current h = elim (dec_lt (current + 1) n) [
  | yes p ↦ rw (lt→ltb (current + 1) n p) (omega arith)
  | no p ↦ rw (ge→ltb (current + 1) n p) (omega arith)
]

index-mod : (n a current : ℕ) → current < n → (a * n + current) % n ≡ current
index-mod n a current h = mul-add-mod_self_right a n current ∙ mod-eq_of_lt h

-- The rest of the table from a round in which `a` whole turns are done.
naive_from-simple_from :
    (n share : ℕ) (k a i : ℕ) (c : Cursor)
    → Inv n share a c
    → i ≡ a * n + c.current_entry
    → i + k < share * n
    → naive_from n k c ≡ some (simple_from n i k)
unfolding naive_from simple_from
naive_from-simple_from n share zero a i c v e h = refl
naive_from-simple_from n share (suc k) a i c v e h =
    let left = round_left n share a c.current_entry k v.inside (omega arith) in
    let c' : Cursor = advanced n (used c (new_bans c)) in
    let rest : naive_from n k c' ≡ some (simple_from n (i + 1) k) =
      naive_from-simple_from n share k (turns n a c) (i + 1) c'
        (advanced-Inv n share a c (new_bans c) v left.0 (length-new_bans n c v.bans)
          (new_bans-banned n share a c v left.0))
        (omega (arith, next_index n a c.current_entry v.inside)) (omega arith) in
    rw (naive_step-advanced n share a c v left.0 left.1, naive_from, rest, naive_from)
      (rw (e, index-mod n a c.current_entry v.inside))

start_cursor-Inv :
    (n share : ℕ) → 0 < n → 0 < share → share < 2 ^ 32 → Inv n share 0 (start_cursor n share)
start_cursor-Inv n share h p f = record {
  first = (refl, refl);
  inside = h;
  shares = length-replicate n share;
  bans = length-replicate n false;
  left = λ e he. ground (arith, get_or-replicate_lt n e share 0 he);
  banned = λ e. cc (get_or-replicate n 0 false);
  fits = f;
}

simple_table : (n m : ℕ) → 0 < n → simple_lookup_table n m ≡ some (simple_from n 0 m)
unfolding simple_lookup_table simple_from
simple_table n zero h = refl
simple_table n (suc m) h = ground arith

-- For one backend or more and a table length that leaves room in a uint32, the table that
-- `NaiveFibLookupTable` makes is the one of `SimpleLookupTable`: the Fibonacci numbers play no part.
pub naive_fib_lookup_table-simple :
    (n m : ℕ) → 0 < n → m + 1 < 2 ^ 32 → naive_fib_lookup_table n m ≡ simple_lookup_table n m
unfolding naive_fib_lookup_table
naive_fib_lookup_table-simple n m h f =
    rw (share-eq, simple_table n m h)
      (naive_from-simple_from n (m / n + 1) m 0 0 (start_cursor n (m / n + 1))
        (start_cursor-Inv n (m / n + 1) h (omega arith) (omega (arith, share_fits))) (omega arith)
        (omega (arith, whole)))
  where
    whole : m < (m / n + 1) * n
    whole = omega (arith, div-add-mod m n, mod-lt m h)

    share_fits : m / n ≤ m
    share_fits = div-le_self m n

    share-eq : (m / n + 1) % 2 ^ 32 ≡ m / n + 1
    share-eq = omega (arith, share_fits)
