-- ===== src/Cluster/SendLoop.antt =====
-- internal/adapter/cluster/mux.go: `sendLoop`, the goroutines that merge the sources into one channel,
-- and the senders of the sources, as interleaved steps. What their senders have sent and no goroutine has
-- received yet is `feed`. The channel `merged` has no buffer, so that a goroutine's send and the loop's
-- receive are one step. `none` is a step that has to wait or that is not the next one, or a panic.
pub mod Placed
pub mod Stays
pub mod Trace
pub mod Steps
pub mod Order
pub mod Log
pub mod Writes
pub mod Ends
mod Tests
use udplb.Base.{
  not, elem, ℕ, Bool, true, false, ◌&&◌, ◌||◌, Option, none, some, List, [], ◌∷◌, ◌++◌, Map,
  get_elem?, set, if◌then◌else◌,
}
use udplb.Types.{Uuid}
use udplb.Cluster.{ClusterMux, send_message, close_conns}

-- The goroutine of a source: at its outer select, at the inner one with a message, or returned.
pub data Reader : Type 0 where
  selecting reader_returned : Reader
  holding : List ℕ → Reader

pub record Source : Type 0 where
  pub feed : List (List ℕ)
  pub is_closed : Bool
  pub reader : Reader

-- The loop itself: at its select, behind the label `terminate`, or returned.
pub data Stage : Type 0 where
  looping terminating loop_returned : Stage

-- A message that the loop received: from which source, and the writes it made.
pub record Delivery (C : Type 0) : Type 0 where
  pub from : ℕ
  pub message : List ℕ
  pub writes : Map Uuid C

-- `delivered` has the latest message first.
pub record SendLoop (C : Type 0) : Type 0 where
  pub mux : ClusterMux C
  pub sources : List Source
  pub terminate_closed : Bool
  pub stage : Stage
  pub delivered : List (Delivery C)
  pub closed_conns : List C

-- `terminates` is `close(cm.terminateCh)`; a message is merged with what dialling gives meanwhile.
pub data Event (C : Type 0) : Type 0 where
  sends : ℕ → List ℕ → Event C
  closes receives stops : ℕ → Event C
  merges : ℕ → (List ℕ → Option C) → Event C
  leaves finishes terminates : Event C

abbrev pub new_sources : List ℕ → List Source
new_sources [] = []
new_sources (ch ∷ chs) =
    record { feed = []; is_closed = false; reader = selecting } ∷ new_sources chs

abbrev pub distinct : List ℕ → Bool
distinct [] = true
distinct (i ∷ is) = not (elem i is) && distinct is

-- `sendLoop` once the goroutines are started. A channel that is registered twice would have two
-- goroutines that share what is sent on it: `none` says that this is not modelled.
abbrev pub start_send_loop : {C : Type 0} → ClusterMux C → Option (SendLoop C)
start_send_loop cm =
    if distinct cm.send_sources
    then some (record {
      mux = cm;
      sources = new_sources cm.send_sources;
      terminate_closed = false;
      stage = looping;
      delivered = [];
      closed_conns = [];
    })
    else none

abbrev pub is_returned : Reader → Bool
is_returned selecting = false
is_returned reader_returned = true
is_returned (holding msg) = false

-- `mergeWg.Wait()` is over, so that `merged` gets closed.
abbrev pub all_returned : List Source → Bool
all_returned [] = true
all_returned (src ∷ srcs) = is_returned src.reader && all_returned srcs

-- The send of a sender: on a closed channel it panics.
abbrev pub send_to : List ℕ → Source → Option Source
send_to msg src =
    if src.is_closed then none else some (record src { feed = src.feed ++ (msg ∷ []) })

abbrev pub close_source : Source → Option Source
close_source src = if src.is_closed then none else some (record src { is_closed = true })

abbrev pub receive_feed : List (List ℕ) → Source → Option Source
receive_feed (msg ∷ feed) src = some (record src { feed = feed; reader = holding msg })
receive_feed [] src = if src.is_closed then some (record src { reader = reader_returned }) else none

-- `case data, ok := <-ch` of the outer select.
abbrev pub receive_source : Reader → Source → Option Source
receive_source selecting src = receive_feed src.feed src
receive_source reader_returned src = none
receive_source (holding msg) src = none

-- `case <-cm.terminateCh` of either select: a message in hand is lost.
abbrev pub stop_source : Bool → Reader → Source → Option Source
stop_source false reader src = none
stop_source true selecting src = some (record src { reader = reader_returned })
stop_source true reader_returned src = none
stop_source true (holding msg) src = some (record src { reader = reader_returned })

module _ {C : Type 0} where
  abbrev pub put_source : ℕ → Option Source → SendLoop C → Option (SendLoop C)
  put_source i none s = none
  put_source i (some src) s = some (record s { sources = set s.sources i src })

  abbrev pub at_source :
      (Source → Option Source) → ℕ → Option Source → SendLoop C → Option (SendLoop C)
  at_source f i none s = none
  at_source f i (some src) s = put_source i (f src) s

  -- `case merged <- msg` and the loop's iteration for the message.
  abbrev pub merge_data :
      (List ℕ → Option C) → ℕ → Source → Reader → SendLoop C → Option (SendLoop C)
  merge_data dial i src selecting s = none
  merge_data dial i src reader_returned s = none
  merge_data dial i src (holding msg) s =
      let (cm, writes) = send_message dial s.mux in
      some (record s {
        mux = cm;
        sources = set s.sources i (record src { reader = selecting });
        delivered = record { from = i; message = msg; writes = writes } ∷ s.delivered;
      })

  abbrev pub merge_from :
      (List ℕ → Option C) → ℕ → Stage → Option Source → SendLoop C → Option (SendLoop C)
  merge_from dial i looping (some src) s = merge_data dial i src src.reader s
  merge_from dial i looping none s = none
  merge_from dial i terminating o s = none
  merge_from dial i loop_returned o s = none

  -- `<-cm.terminateCh`, or `merged` is closed.
  abbrev pub leave_loop : Stage → SendLoop C → Option (SendLoop C)
  leave_loop looping s =
      if s.terminate_closed || all_returned s.sources
      then some (record s { stage = terminating })
      else none
  leave_loop terminating s = none
  leave_loop loop_returned s = none

  -- The connections are closed and forgotten.
  abbrev pub finish_loop : Stage → SendLoop C → Option (SendLoop C)
  finish_loop looping s = none
  finish_loop terminating s =
      let (closed, cm) = close_conns s.mux in
      some (record s { mux = cm; stage = loop_returned; closed_conns = closed })
  finish_loop loop_returned s = none

  unfoldable pub step : Event C → SendLoop C → Option (SendLoop C)
  unfolding send_message close_conns
  step (sends i msg) s = at_source (send_to msg) i (get_elem? s.sources i) s
  step (closes i) s = at_source close_source i (get_elem? s.sources i) s
  step (receives i) s = at_source (λ src. receive_source src.reader src) i (get_elem? s.sources i) s
  step (stops i) s =
      at_source (λ src. stop_source s.terminate_closed src.reader src) i (get_elem? s.sources i) s
  step (merges i dial) s = merge_from dial i s.stage (get_elem? s.sources i) s
  step leaves s = leave_loop s.stage s
  step finishes s = finish_loop s.stage s
  step terminates s =
      if s.terminate_closed then none else some (record s { terminate_closed = true })
