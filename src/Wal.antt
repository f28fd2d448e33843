-- ===== src/Wal.antt =====
-- internal/adapter/wal/wal.go, with internal/types/wal.go and `Propose` of
-- internal/controller/dvds/dvds.go: proposals go to a ring buffer, from which a goroutine takes one at
-- a time; the event loop appends it to the linked list and dispatches its data. The channels of the
-- watchers are not modelled: the step's result is what is dispatched. Of an entry the fields that the
-- code sets are kept: the data, the verb and the log's name.
pub mod Pipeline
mod Tests
use udplb.Base.{ℕ, zero, suc, Option, none, some, List, [], ◌∷◌}
use udplb.Types.{Command}
use udplb.RingBuffer.{RingBuffer, new_ring_buffer, write, next}
use udplb.LinkedList.{LinkedList, new_linked_list, append}

pub record WalEntry {ℓ} (T : Type ℓ) : Type ℓ where
  pub payload : T
  pub verb : Command
  pub wal_name : List ℕ

-- `in_hand` is the entry that the reader goroutine took and offers to the event loop.
pub record Wal {ℓ} (T : Type ℓ) : Type ℓ where
  pub name : List ℕ
  pub linked_list : LinkedList (WalEntry T)
  pub proposal_buffer : RingBuffer (WalEntry T)
  pub in_hand : Option (WalEntry T)

abbrev pub proposing_ring_buffer_size : ℕ
proposing_ring_buffer_size = 32

module _ {ℓ} {T : Type ℓ} where
  unfoldable pub new_wal : List ℕ → ℕ → Wal T
  new_wal name capacity = record {
    name = name;
    linked_list = new_linked_list capacity;
    proposal_buffer = new_ring_buffer proposing_ring_buffer_size;
    in_hand = none;
  }

  -- The write of `Propose` came back.
  abbrev pub buffered : Wal T → Option (RingBuffer (WalEntry T)) → Option (Wal T)
  buffered w none = none
  buffered w (some rb) = some (record w { proposal_buffer = rb })

  unfoldable pub propose : WalEntry T → Wal T → Option (Wal T)
  propose proposal w = buffered w (write (record proposal { wal_name = w.name }) w.proposal_buffer)

  -- `dvds.Propose`: the verb is always Put.
  unfoldable pub propose_data : T → Wal T → Option (Wal T)
  unfolding propose
  propose_data v w = propose (record { payload = v; verb = Command.put; wal_name = [] }) w

  -- `entry := w.proposalBuffer.Next()` of the reader.
  abbrev pub taken : Wal T → Option (WalEntry T × RingBuffer (WalEntry T)) → Option (Wal T)
  taken w none = none
  taken w (some (e, rb)) = some (record w { proposal_buffer = rb; in_hand = some e })

  -- The reader's step; it waits while it holds an entry.
  abbrev pub read_held : Option (WalEntry T) → Wal T → Option (Wal T)
  read_held none w = taken w (next w.proposal_buffer)
  read_held (some e) w = none

  unfoldable pub read_proposal : Wal T → Option (Wal T)
  read_proposal w = read_held w.in_hand w

  -- `case proposal := <-proposalCh`: what is dispatched, and the new state.
  abbrev pub appended :
      Wal T → WalEntry T → Option (LinkedList (WalEntry T)) → Option (List T × Wal T)
  appended w e none = none
  appended w e (some l) = some (e.payload ∷ [], record w { linked_list = l; in_hand = none })

  unfoldable pub accept_proposal : Wal T → Option (List T × Wal T)
  accept_proposal w = elim w.in_hand [
    | none ↦ none
    | some e ↦ appended w e (append e w.linked_list)
  ]
