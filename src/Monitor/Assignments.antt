-- ===== src/Monitor/Assignments.antt =====
-- internal/adapter/monitor/remote_assignment.go: `recvLoop`, which decodes datagrams and dispatches them
-- to the watchers. json.Unmarshal is a parameter, and `none` of it an error; `none` of a loop is a panic.
use mathlib.Core.List.{append-nil, append_assoc}
use udplb.Base.{
  ℕ, zero, suc, ◌+◌, ◌≡◌, sym, ap, ◌∙◌, Bool, true, false, Option, none, some, List, [], ◌∷◌, ◌++◌,
  length, take, ltb, length-append, if◌then◌else◌, arith,
}
use udplb.Types.{Assignment}
use udplb.WatcherMux.{WatcherMux, new_watcher_mux, watch, dispatch, close_mux}

-- What an iteration finds: `terminateCh` is closed, the read deadline has passed, the read failed for
-- another reason (and whether `terminateCh` is closed then), or a datagram.
pub data Read : Type 0 where
  terminated timed_out : Read
  failed : Bool → Read
  datagram : List ℕ → Read

module _ (unmarshal : List ℕ → Option Assignment) where
  -- A datagram of `n` bytes: an empty one and one that does not decode are skipped.
  abbrev pub decode_datagram : List ℕ → Option Assignment
  decode_datagram [] = none
  decode_datagram (b ∷ bs) = unmarshal (b ∷ bs)

  abbrev pub dispatch_decoded :
      Option Assignment → WatcherMux Assignment → Option (WatcherMux Assignment)
  dispatch_decoded none wm = some wm
  dispatch_decoded (some a) wm = dispatch false a wm.watchers wm

  -- The loop over its reads; when they end it still waits.
  unfoldable pub recv_loop : List Read → WatcherMux Assignment → Option (WatcherMux Assignment)
  unfolding dispatch close_mux
  recv_loop [] wm = some wm
  recv_loop (terminated ∷ rs) wm = close_mux wm
  recv_loop (timed_out ∷ rs) wm = recv_loop rs wm
  recv_loop (failed told ∷ rs) wm =
      let rest = recv_loop rs wm in if told then close_mux wm else rest
  recv_loop (datagram bs ∷ rs) wm = elim (dispatch_decoded (decode_datagram bs) wm) [
    | none ↦ none
    | some wm' ↦ recv_loop rs wm'
  ]

  abbrev pub and_decoded : Option Assignment → List Assignment → List Assignment
  and_decoded none rest = rest
  and_decoded (some a) rest = a ∷ rest

  -- The assignments that arrive before the loop ends.
  abbrev pub arrived : List Read → List Assignment
  arrived [] = []
  arrived (terminated ∷ rs) = []
  arrived (timed_out ∷ rs) = arrived rs
  arrived (failed told ∷ rs) = let rest = arrived rs in if told then [] else rest
  arrived (datagram bs ∷ rs) = and_decoded (decode_datagram bs) (arrived rs)

  abbrev pub ends : List Read → Bool
  ends [] = false
  ends (terminated ∷ rs) = true
  ends (timed_out ∷ rs) = ends rs
  ends (failed told ∷ rs) = let rest = ends rs in if told then true else rest
  ends (datagram bs ∷ rs) = ends rs

  -- A multiplexer with one watcher, that has not read yet.
  abbrev pub one_watcher : ℕ → List Assignment → Bool → WatcherMux Assignment
  one_watcher capacity ch closed = record {
    heap = record { ch = ch; once = closed; done = false; filter = none } ∷ [];
    watchers = 0 ∷ [];
    watcher_ch_capacity = capacity;
    closed = closed;
  }

  nothing_more : (ch : List Assignment) (room : ℕ) → ch ≡ ch ++ take room []
  nothing_more ch zero = sym (append-nil ch)
  nothing_more ch (suc room) = sym (append-nil ch)

  -- The loop from a channel with room for some assignments more.
  LoopsFrom : ℕ → List Read → Type 0
  LoopsFrom capacity rs =
      (ch : List Assignment) (room : ℕ)
      → length ch + room ≡ capacity
      → recv_loop rs (one_watcher capacity ch false)
        ≡ some (one_watcher capacity (ch ++ take room (arrived rs)) (ends rs))

  module _ (capacity : ℕ) (rs : List Read) (h : LoopsFrom capacity rs) where
    after_decoded : Option Assignment → WatcherMux Assignment → Option (WatcherMux Assignment)
    unfolding recv_loop dispatch
    after_decoded o wm = elim (dispatch_decoded o wm) [ none ↦ none | some wm' ↦ recv_loop rs wm' ]

    -- A datagram by what it decodes to.
    decoded_lem :
        (o : Option Assignment) (ch : List Assignment) (room : ℕ)
        → length ch + room ≡ capacity
        → after_decoded o (one_watcher capacity ch false)
          ≡ some (one_watcher capacity (ch ++ take room (and_decoded o (arrived rs))) (ends rs))
    unfolding after_decoded dispatch LoopsFrom
    decoded_lem none ch room l = h ch room l
    decoded_lem (some a) ch zero l =
        let full : ltb (length ch) capacity ≡ false = ground arith in
        rw (full, if◌then◌else◌) (h ch zero l)
    decoded_lem (some a) ch (suc room) l =
        let free : ltb (length ch) capacity ≡ true = ground arith in
        rw (free, if◌then◌else◌)
          (h (ch ++ (a ∷ [])) room (omega (arith, length-append ch (a ∷ []), l))
            ∙ ap (λ c. some (one_watcher capacity c (ends rs)))
                (append_assoc ch (a ∷ []) (take room (arrived rs))))

    after_datagram :
        (bs : List ℕ) (ch : List Assignment) (room : ℕ)
        → length ch + room ≡ capacity
        → recv_loop (datagram bs ∷ rs) (one_watcher capacity ch false)
          ≡ some (one_watcher capacity (ch ++ take room (arrived (datagram bs ∷ rs))) (ends rs))
    unfolding recv_loop after_decoded
    after_datagram bs ch room l = decoded_lem (decode_datagram bs) ch room l

  loops_from : (capacity : ℕ) (rs : List Read) → LoopsFrom capacity rs
  unfolding recv_loop LoopsFrom
  loops_from capacity [] ch room l =
      ap (λ c. some (one_watcher capacity c false)) (nothing_more ch room)
  loops_from capacity (terminated ∷ rs) ch room l =
      ap (λ c. some (one_watcher capacity c true)) (nothing_more ch room)
  loops_from capacity (timed_out ∷ rs) ch room l = loops_from capacity rs ch room l
  loops_from capacity (failed true ∷ rs) ch room l =
      ap (λ c. some (one_watcher capacity c true)) (nothing_more ch room)
  loops_from capacity (failed false ∷ rs) ch room l = loops_from capacity rs ch room l
  loops_from capacity (datagram bs ∷ rs) ch room l =
      after_datagram capacity rs (loops_from capacity rs) bs ch room l

  -- A watcher that registers before the loop runs, and reads later, finds in its channel the first
  -- assignments that arrive before the loop ends, in order, as many as its channel has room for,
  -- whatever datagrams are empty or malformed and whatever reads fail or run into the deadline; and its
  -- channel is closed exactly if the loop was told to terminate.
  pub recv_loop-one_watcher :
      (capacity : ℕ) (rs : List Read)
      → recv_loop rs (watch none (new_watcher_mux capacity))
        ≡ some (one_watcher capacity (take capacity (arrived rs)) (ends rs))
  unfolding recv_loop watch LoopsFrom
  recv_loop-one_watcher capacity rs = loops_from capacity rs [] capacity (omega arith)
