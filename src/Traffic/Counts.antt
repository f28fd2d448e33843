-- ===== src/Traffic/Counts.antt =====
-- The counts of the generator and of the echo backend.
use native.Mathlib.Nat.{mod-lt}
use udplb.Base.{
  ℕ, zero, suc, ◌+◌, ◌%◌, ◌≤◌, ◌<◌, ◌≡◌, refl, sym, ap, ◌∙◌, Bool, true, false, inl, inr, Option,
  none, some, List, [], ◌∷◌, arith, length, get_elem?, get_elem?_lt, map, Map, lookup, insert,
  lookup-insert, ◌==◌, ==_refl, bytes_comparable, if◌then◌else◌, Bool-cases, some_same,
}
use udplb.Types.{Uuid}
use udplb.Traffic.{
  build_packet, Stats, new_stats, or_zero, record_packet, serve_parsed, serve, serve_all, Generator,
  new_report, new_generator, tick_session, tick, put_packet, put_tick, send_traffic,
}
use udplb.Traffic.Packets.{length-build_packet, parse_packet-build_packet, take_all}

-- The number of writes that succeed.
abbrev pub count_ok : List Bool → ℕ
count_ok [] = 0
count_ok (true ∷ oks) = count_ok oks + 1
count_ok (false ∷ oks) = count_ok oks

-- Each session of the list has a counter.
abbrev HasCounters : List Uuid → Map Uuid ℕ → Type 0
HasCounters sids m =
    (i : ℕ) (sid : Uuid) → get_elem? sids i ≡ some sid → (n : ℕ) × (lookup sid m ≡ some n)

insert-kept :
    (sid k : Uuid) (v : ℕ) (m : Map Uuid ℕ)
    → (n : ℕ) × (lookup k m ≡ some n)
    → (n : ℕ) × (lookup k (insert sid v m) ≡ some n)
insert-kept sid k v m (n, e) = elim (Bool-cases (sid == k)) [
  | inl same ↦ (v, lookup-insert sid k v m ∙ rw (same, if◌then◌else◌) refl)
  | inr other ↦ (n, lookup-insert sid k v m ∙ rw (other, if◌then◌else◌) e)
]

insert-HasCounters :
    (sid : Uuid) (v : ℕ) (sids : List Uuid) (m : Map Uuid ℕ)
    → HasCounters sids m
    → HasCounters sids (insert sid v m)
insert-HasCounters sid v sids m h i k at_i = insert-kept sid k v m (h i k at_i)

new_report-kept :
    (sids : List Uuid) (k : Uuid) (m : Map Uuid ℕ)
    → (n : ℕ) × (lookup k m ≡ some n)
    → (n : ℕ) × (lookup k (new_report sids m) ≡ some n)
unfolding new_report
new_report-kept [] k m h = h
new_report-kept (sid ∷ sids) k m h =
    new_report-kept sids k (insert sid 0 m) (insert-kept sid k 0 m h)

new_report-HasCounters : (sids : List Uuid) (m : Map Uuid ℕ) → HasCounters sids (new_report sids m)
unfolding new_report
new_report-HasCounters [] m i k e = absurd (ground arith)
new_report-HasCounters (sid ∷ sids) m zero k e =
    new_report-kept sids k (insert sid 0 m)
      (0, lookup-insert sid k 0 m ∙ rw (sym (some_same e), ==_refl sid, if◌then◌else◌) refl)
new_report-HasCounters (sid ∷ sids) m (suc i) k e =
    new_report-HasCounters sids (insert sid 0 m) i k e

-- A new report counts nothing.
new_report-zero :
    (sids : List Uuid) (k : Uuid) (m : Map Uuid ℕ)
    → or_zero (lookup k m) ≡ 0
    → or_zero (lookup k (new_report sids m)) ≡ 0
unfolding new_report
new_report-zero [] k m h = h
new_report-zero (sid ∷ sids) k m h =
    new_report-zero sids k (insert sid 0 m) (elim (Bool-cases (sid == k)) [
      | inl same ↦ rw (lookup-insert sid k 0 m, same, if◌then◌else◌) refl
      | inr other ↦ rw (lookup-insert sid k 0 m, other, if◌then◌else◌) h
    ])

-- The two ends count alike.
record Agree (g : Generator) (s : Stats) : Type 0 where
  totals : s.total_received ≡ g.total_sent
  counts : (k : Uuid) → or_zero (lookup k s.sessions) ≡ or_zero (lookup k g.sessions)

Agree-sent :
    (g : Generator) (s : Stats) (sid : Uuid) (n i : ℕ) (addr : Option (List ℕ))
    → lookup sid g.sessions ≡ some n
    → Agree g s
    → Agree
        (record {
          idx = i;
          total_sent = g.total_sent + 1;
          sessions = insert sid (n + 1) g.sessions;
        })
        (record_packet sid addr s)
unfolding record_packet
Agree-sent g s sid n i addr e a = record {
  totals = ap (λ m. m + 1) a.totals;
  counts = λ k. elim (Bool-cases (sid == k)) [
    | inl same ↦
        rw
          (
            lookup-insert sid k (or_zero (lookup sid s.sessions) + 1) s.sessions,
            lookup-insert sid k (n + 1) g.sessions,
            same,
            if◌then◌else◌,
          )
          (ap (λ m. m + 1) (a.counts sid ∙ ap or_zero e))
    | inr other ↦
        rw
          (
            lookup-insert sid k (or_zero (lookup sid s.sessions) + 1) s.sessions,
            lookup-insert sid k (n + 1) g.sessions,
            other,
            if◌then◌else◌,
          )
          (a.counts k)
  ];
}

serve-build_packet :
    (sid : Uuid) (k : ℕ) (ip : List ℕ) (s : Stats)
    → length sid ≡ 16
    → k ≤ 65515
    → serve (build_packet sid k) (some ip) s
      ≡ (some (build_packet sid k), record_packet sid (some ip) s)
unfolding serve
serve-build_packet sid k ip s h fits =
    rw
      (
        take_all 65535 (build_packet sid k) (omega (arith, length-build_packet sid k h)),
        parse_packet-build_packet sid k h,
        serve_parsed,
      )
      refl

-- What the echo backend `s` makes of the ticks `oks` of the generator `g`.
pub record Delivered (sids : List Uuid) (k : ℕ) (ip : List ℕ) (oks : List Bool) (g : Generator)
    (s : Stats) : Type 0 where
  pub packets : List (List ℕ)
  pub after : Generator
  pub written : send_traffic sids k oks g ≡ some (packets, after)
  pub echoed : (serve_all packets (some ip) s).0 ≡ map some packets
  pub received : (serve_all packets (some ip) s).1.total_received ≡ after.total_sent
  pub sessions :
      (sid : Uuid)
      → or_zero (lookup sid (serve_all packets (some ip) s).1.sessions)
        ≡ or_zero (lookup sid after.sessions)
  pub total : after.total_sent ≡ g.total_sent + count_ok oks

module _ (sids : List Uuid) (k : ℕ) (ip : List ℕ)
    (sixteen : (i : ℕ) (sid : Uuid) → get_elem? sids i ≡ some sid → length sid ≡ 16)
    (short : k ≤ 65515) (some_session : 0 < length sids) where
  tick-sent :
      (g : Generator) (sid : Uuid) (n : ℕ)
      → get_elem? sids (g.idx % length sids) ≡ some sid
      → lookup sid g.sessions ≡ some n
      → tick sids k true g
        ≡ some (
          some (build_packet sid k),
          record {
            idx = g.idx + 1;
            total_sent = g.total_sent + 1;
            sessions = insert sid (n + 1) g.sessions;
          },
        )
  unfolding tick
  tick-sent g sid n at_idx e = rw (at_idx, tick, e, tick_session) refl

  tick-failed :
      (g : Generator) (sid : Uuid)
      → get_elem? sids (g.idx % length sids) ≡ some sid
      → tick sids k false g ≡ some (none, record g { idx = g.idx + 1 })
  unfolding tick
  tick-failed g sid at_idx = rw (at_idx, tick, tick_session) refl

  Delivered-Agree :
      (oks : List Bool) (g : Generator) (s : Stats)
      → HasCounters sids g.sessions
      → Agree g s
      → Delivered sids k ip oks g s
  unfolding send_traffic serve_all
  Delivered-Agree [] g s h a = record {
    packets = [];
    after = g;
    written = refl;
    echoed = refl;
    received = a.totals;
    sessions = a.counts;
    total = omega arith;
  }
  Delivered-Agree (false ∷ oks) g s h a =
      let (sid, at_idx) = get_elem?_lt sids (g.idx % length sids) (mod-lt g.idx some_session) in
      let d =
        Delivered-Agree oks (record g { idx = g.idx + 1 }) s h
          (record { totals = a.totals; counts = a.counts }) in
      record {
        packets = d.packets;
        after = d.after;
        written = rw (tick-failed g sid at_idx, send_traffic, d.written, put_tick, put_packet) refl;
        echoed = d.echoed;
        received = d.received;
        sessions = d.sessions;
        total = d.total;
      }
  Delivered-Agree (true ∷ oks) g s h a =
      let (sid, at_idx) = get_elem?_lt sids (g.idx % length sids) (mod-lt g.idx some_session) in
      let (n, e) = h (g.idx % length sids) sid at_idx in
      let d =
        Delivered-Agree oks
          (record {
            idx = g.idx + 1;
            total_sent = g.total_sent + 1;
            sessions = insert sid (n + 1) g.sessions;
          })
          (record_packet sid (some ip) s) (insert-HasCounters sid (n + 1) sids g.sessions h)
          (Agree-sent g s sid n (g.idx + 1) (some ip) e a) in
      let here = serve-build_packet sid k ip s (sixteen (g.idx % length sids) sid at_idx) short in
      record {
        packets = build_packet sid k ∷ d.packets;
        after = d.after;
        written =
            rw (tick-sent g sid n at_idx e, send_traffic, d.written, put_tick, put_packet) refl;
        echoed = rw (here) (ap (λ l. some (build_packet sid k) ∷ l) d.echoed);
        received = rw (here) d.received;
        sessions = λ key. rw (here) (d.sessions key);
        total = omega (arith, d.total);
      }

  -- If every session id has sixteen bytes, there is one at least and a packet fits the buffer of the
  -- echo backend, then the generator does not panic whatever its writes return, and a new echo backend
  -- that gets the packets written, in order and each once, echoes each as it is, and counts as many
  -- packets as were written, in all and for each session.
  pub send_traffic-Delivered :
      (oks : List Bool) → Delivered sids k ip oks (new_generator sids) new_stats
  unfolding new_generator
  send_traffic-Delivered oks =
      Delivered-Agree oks (new_generator sids) new_stats (new_report-HasCounters sids [])
        (record { totals = refl; counts = λ key. sym (new_report-zero sids key [] refl) })
