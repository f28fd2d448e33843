-- ===== src/Wal/Tests.antt =====
-- A run of the log, and the theorem at a concrete input.
use udplb.Base.{ℕ, ◌-◌, ◌≡◌, arith, some, List, [], ◌∷◌, map, length, drop}
use udplb.LinkedList.{walk}
use udplb.Wal.{WalEntry, Wal, new_wal}
use udplb.Wal.Pipeline.{propose_all, drain, entry, dispatches, drain-propose_all}

abbrev values : List ℕ
values = 5 ∷ 6 ∷ 7 ∷ []

abbrev entries : List (WalEntry ℕ)
entries = drop (length values - 32) (map (entry (1 ∷ [])) values)

drain-propose_all_example :
    (w : Wal ℕ) × (w' : Wal ℕ) × (propose_all values (new_wal (1 ∷ []) 2) ≡ some w)
    × (drain (length entries) w ≡ some (dispatches entries, w'))
    × (walk 2 w'.linked_list.nodes w'.linked_list.head ≡ drop (length entries - 2) entries)
drain-propose_all_example = drain-propose_all (1 ∷ []) 2 2 values (omega arith) (omega arith)
