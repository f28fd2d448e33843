-- ===== src/Cluster/SendLoop/Stays.antt =====
-- A goroutine that returned does nothing more.
use mathlib.Core.Path.{subst}
use udplb.Base.{
  ℕ, zero, suc, ◌≡◌, refl, Bool, true, false, Option, some, List, [], ◌∷◌, get_elem?, set, arith,
  some_same, not_some, else_some,
}
use udplb.Cluster.SendLoop.{
  Reader, selecting, reader_returned, holding, Source, is_returned, all_returned, send_to,
  close_source, receive_source, stop_source,
}

-- A goroutine that returned stays so.
abbrev pub Stays : (Source → Option Source) → Type 0
Stays f =
    (src src' : Source)
    → f src ≡ some src'
    → is_returned src.reader ≡ true
    → is_returned src'.reader ≡ true

pub all_returned_at :
    (srcs : List Source) (i : ℕ) (src : Source)
    → all_returned srcs ≡ true
    → get_elem? srcs i ≡ some src
    → is_returned src.reader ≡ true
all_returned_at [] i src a e = absurd (not_some src e)
all_returned_at (s ∷ srcs) zero src a e =
    subst (λ r. is_returned r.reader ≡ true) (some_same e) (ground arith)
all_returned_at (s ∷ srcs) (suc i) src a e = all_returned_at srcs i src (ground arith) e

pub all_returned-set :
    (srcs : List Source) (i : ℕ) (src : Source)
    → all_returned srcs ≡ true
    → is_returned src.reader ≡ true
    → all_returned (set srcs i src) ≡ true
all_returned-set [] i src a r = refl
all_returned-set (s ∷ srcs) zero src a r = ground arith
all_returned-set (s ∷ srcs) (suc i) src a r =
    let rest = all_returned-set srcs i src (ground arith) r in ground arith

pub send_to-Stays : (msg : List ℕ) → Stays (send_to msg)
send_to-Stays msg src src' e r =
    let (o, e') = else_some src.is_closed _ src' e in
    subst (λ q. is_returned q.reader ≡ true) (some_same e') r

pub close_source-Stays : Stays close_source
close_source-Stays src src' e r =
    let (o, e') = else_some src.is_closed _ src' e in
    subst (λ q. is_returned q.reader ≡ true) (some_same e') r

not_received :
    (src src' : Source) (reader : Reader)
    → receive_source reader src ≡ some src'
    → is_returned reader ≡ true
    → ⊥
not_received src src' selecting e r = ground arith
not_received src src' reader_returned e r = not_some src' e
not_received src src' (holding msg) e r = not_some src' e

pub receive_source-Stays : Stays (λ src. receive_source src.reader src)
receive_source-Stays src src' e r = absurd (not_received src src' src.reader e r)

not_stopped :
    (t : Bool) (src src' : Source) (reader : Reader)
    → stop_source t reader src ≡ some src'
    → is_returned reader ≡ true
    → ⊥
not_stopped false src src' reader e r = not_some src' e
not_stopped true src src' selecting e r = ground arith
not_stopped true src src' reader_returned e r = not_some src' e
not_stopped true src src' (holding msg) e r = ground arith

pub stop_source-Stays : (t : Bool) → Stays (λ src. stop_source t src.reader src)
stop_source-Stays t src src' e r = absurd (not_stopped t src src' src.reader e r)
