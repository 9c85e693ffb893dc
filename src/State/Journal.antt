-- ===== src/State/Journal.antt =====
-- internal/state/journal.go: the log of old values, and the positions in it that can be returned to.
-- Both lists stand here with the latest first.
use tylium.Prelude.{ℕ, suc, ◌-◌, Option, List, [], ◌∷◌, length, take, drop, get_elem?}

-- `JournalEntry`: an account's or a storage slot's old bytes, `none` for nil.
pub data JournalEntry : Type 0 where
  account_entry : ℕ → Option (List ℕ) → JournalEntry
  storage_entry : ℕ → ℕ → Option (List ℕ) → JournalEntry

pub record Journal : Type 0 where
  pub entries : List JournalEntry
  pub snapshots : List ℕ

abbrev pub new_journal : Journal
new_journal = record { entries = []; snapshots = [] }

unfoldable pub record_entry : JournalEntry → Journal → Journal
record_entry e j = record j { entries = e ∷ j.entries }

-- `Snapshot`: the id is the number of snapshots before.
unfoldable pub take_position : Journal → ℕ × Journal
take_position j = (length j.snapshots, record j { snapshots = length j.entries ∷ j.snapshots })

-- `j.snapshots[id]`, the entries behind that position, the latest first, and what is left of the
-- journal behind a revert.
abbrev pub position : ℕ → Journal → Option ℕ
position id j = get_elem? j.snapshots (length j.snapshots - suc id)

abbrev pub entries_from : ℕ → Journal → List JournalEntry
entries_from target j = take (length j.entries - target) j.entries

unfoldable pub truncated : ℕ → ℕ → Journal → Journal
truncated id target j = record {
  entries = drop (length j.entries - target) j.entries;
  snapshots = drop (length j.snapshots - id) j.snapshots;
}
