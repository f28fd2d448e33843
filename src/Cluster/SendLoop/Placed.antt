-- ===== src/Cluster/SendLoop/Placed.antt =====
-- Where the messages of one source are, and the steps of its sender and its goroutine.
use mathlib.Core.Path.{subst}
use mathlib.Core.List.{append_assoc, append-nil}
use udplb.Base.{
  ℕ, zero, suc, ◌≡◌, refl, sym, ap, ◌∙◌, Bool, true, false, some, List, [], ◌∷◌, ◌++◌, get_elem?,
  arith, some_same, not_some, else_some, then_some,
}
use udplb.Cluster.SendLoop.{
  Reader, selecting, reader_returned, holding, Source, new_sources, is_returned, send_to,
  close_source, receive_feed, receive_source, stop_source,
}

-- Where the messages sent on a source are, by its goroutine.
abbrev pub Placed : Bool → List (List ℕ) → List (List ℕ) → Source → Reader → Type 0
Placed terminated sent done src selecting = done ++ src.feed ≡ sent
Placed terminated sent done src (holding msg) = done ++ (msg ∷ src.feed) ≡ sent
Placed terminated sent done src reader_returned =
    (rest : List (List ℕ)) × (done ++ rest ≡ sent)
    × (terminated ≡ false → (rest ≡ []) × (src.is_closed ≡ true))

module _ (sent done : List (List ℕ)) (t : Bool) where
  -- `done ++ feed ≡ sent` after a send.
  longer :
      (feed : List (List ℕ)) (msg : List ℕ)
      → done ++ feed ≡ sent
      → done ++ (feed ++ (msg ∷ [])) ≡ sent ++ (msg ∷ [])
  longer feed msg h = sym (append_assoc done feed (msg ∷ [])) ∙ ap (λ l. l ++ (msg ∷ [])) h

  lengthened :
      (msg : List ℕ) (src : Source) (reader : Reader)
      → src.is_closed ≡ false
      → Placed t sent done src reader
      → Placed t (sent ++ (msg ∷ [])) done (record src { feed = src.feed ++ (msg ∷ []) }) reader
  lengthened msg src selecting o h = longer src.feed msg h
  lengthened msg src (holding m) o h = longer (m ∷ src.feed) msg h
  lengthened msg src reader_returned o (rest, h, q) = (
    rest ++ (msg ∷ []),
    longer rest msg h,
    λ off. let c = sym o ∙ (q off).1 in absurd (ground arith),
  )

  pub send_to-Placed :
      (msg : List ℕ) (src src' : Source)
      → send_to msg src ≡ some src'
      → Placed t sent done src src.reader
      → Placed t (sent ++ (msg ∷ [])) done src' src'.reader
  send_to-Placed msg src src' e h =
      let (o, e') = else_some src.is_closed _ src' e in
      subst (λ r. Placed t (sent ++ (msg ∷ [])) done r r.reader) (some_same e')
        (lengthened msg src src.reader o h)

  ended :
      (src : Source) (reader : Reader)
      → Placed t sent done src reader
      → Placed t sent done (record src { is_closed = true }) reader
  ended src selecting h = h
  ended src (holding m) h = h
  ended src reader_returned (rest, h, q) = (rest, h, λ off. ((q off).0, refl))

  pub close_source-Placed :
      (src src' : Source)
      → close_source src ≡ some src'
      → Placed t sent done src src.reader
      → Placed t sent done src' src'.reader
  close_source-Placed src src' e h =
      let (o, e') = else_some src.is_closed _ src' e in
      subst (λ r. Placed t sent done r r.reader) (some_same e') (ended src src.reader h)

  receive_feed-Placed :
      (src src' : Source) (feed : List (List ℕ))
      → receive_feed feed src ≡ some src'
      → done ++ feed ≡ sent
      → Placed t sent done src' src'.reader
  receive_feed-Placed src src' [] e h =
      let (c, e') = then_some src.is_closed _ src' e in
      subst (λ r. Placed t sent done r r.reader) e' ([], h, λ off. (refl, c))
  receive_feed-Placed src src' (msg ∷ feed) e h =
      subst (λ r. Placed t sent done r r.reader) (some_same e) h

  pub receive_source-Placed :
      (src src' : Source) (reader : Reader)
      → receive_source reader src ≡ some src'
      → Placed t sent done src reader
      → Placed t sent done src' src'.reader
  receive_source-Placed src src' selecting e h = receive_feed-Placed src src' src.feed e h
  receive_source-Placed src src' reader_returned e h = absurd (not_some src' e)
  receive_source-Placed src src' (holding m) e h = absurd (not_some src' e)

  stopped :
      (src src' : Source) (rest : List (List ℕ))
      → some (record src { reader = reader_returned }) ≡ some src'
      → t ≡ true
      → done ++ rest ≡ sent
      → Placed t sent done src' src'.reader
  stopped src src' rest e on h =
      subst (λ r. Placed t sent done r r.reader) (some_same e)
        (rest, h, λ off. absurd (ground arith))

pub stop_source-Placed :
    (sent done : List (List ℕ)) (t : Bool) (src src' : Source) (reader : Reader)
    → stop_source t reader src ≡ some src'
    → Placed t sent done src reader
    → Placed t sent done src' src'.reader
stop_source-Placed sent done false src src' reader e h = absurd (not_some src' e)
stop_source-Placed sent done true src src' selecting e h =
    stopped sent done true src src' src.feed e refl h
stop_source-Placed sent done true src src' reader_returned e h = absurd (not_some src' e)
stop_source-Placed sent done true src src' (holding msg) e h =
    stopped sent done true src src' (msg ∷ src.feed) e refl h

pub told :
    (sent done : List (List ℕ)) (t : Bool) (src : Source) (reader : Reader)
    → Placed t sent done src reader
    → Placed true sent done src reader
told sent done t src selecting h = h
told sent done t src (holding msg) h = h
told sent done t src reader_returned (rest, h, q) = (rest, h, λ off. absurd (ground arith))

-- What was received is the first part of what was sent.
pub Placed-prefix :
    (sent done : List (List ℕ)) (t : Bool) (src : Source) (reader : Reader)
    → Placed t sent done src reader
    → (rest : List (List ℕ)) × (done ++ rest ≡ sent)
Placed-prefix sent done t src selecting h = (src.feed, h)
Placed-prefix sent done t src (holding msg) h = (msg ∷ src.feed, h)
Placed-prefix sent done t src reader_returned (rest, h, q) = (rest, h)

pub Placed-all :
    (sent done : List (List ℕ)) (src : Source) (reader : Reader)
    → Placed false sent done src reader
    → is_returned reader ≡ true
    → done ≡ sent
Placed-all sent done src selecting h r = absurd (ground arith)
Placed-all sent done src (holding msg) h r = absurd (ground arith)
Placed-all sent done src reader_returned (rest, h, q) r =
    sym (append-nil done) ∙ ap (λ l. done ++ l) (sym (q refl).0) ∙ h

pub new_sources_at :
    (chs : List ℕ) (i : ℕ) (src : Source) (t : Bool)
    → get_elem? (new_sources chs) i ≡ some src
    → Placed t [] [] src src.reader
new_sources_at [] i src t e = absurd (not_some src e)
new_sources_at (ch ∷ chs) zero src t e = subst (λ r. Placed t [] [] r r.reader) (some_same e) refl
new_sources_at (ch ∷ chs) (suc i) src t e = new_sources_at chs i src t e
