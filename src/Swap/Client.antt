-- ===== src/Swap/Client.antt =====
-- internal/swap/tylrpc.go: HTLCs as the storage slots that the node gives.
use tylium.Prelude.{ℕ, Option, none, some, List, ◌==◌, length, drop, if◌then◌else◌}
use tylium.Prelude.Words.{add64}
use tylium.Bytes.{from_be}
use tylium.Executor.Htlc.{base_of, word_bytes, htlc_system_address, slot_counter}
use tylium.Swap.{Answers}

-- The low eight of exactly 32 bytes.
unfoldable pub storage_value : Option (List ℕ) → Option ℕ
storage_value none = none
storage_value (some bytes) = if length bytes == 32 then some (from_be (drop 24 bytes)) else none

unfoldable pub get_storage : Answers → ℕ → ℕ → Option ℕ
unfolding storage_value
get_storage a addr slot = elim (a.storage addr slot) [
  | none ↦ none
  | some r ↦ storage_value r.value
]

-- `some none` without a finalized snapshot.
unfoldable pub get_finalized_storage : Answers → ℕ → ℕ → Option (Option ℕ)
unfolding storage_value
get_finalized_storage a addr slot = elim (a.finalized addr slot) [
  | none ↦ none
  | some r ↦ elim r.finalized_value [
    | none ↦ some none
    | some bytes ↦ elim (storage_value bytes) [ none ↦ none | some v ↦ some (some v) ]
  ]
]

pub record HtlcInfo : Type 0 where
  pub sender_id : ℕ
  pub recipient_id : ℕ
  pub amount : ℕ
  pub hashlock : ℕ
  pub timelock : ℕ
  pub status : ℕ
  pub preimage : ℕ

-- A value whose error is dropped is zero.
abbrev pub or_zero : Option ℕ → ℕ
or_zero none = 0
or_zero (some v) = v

-- The record from a slot of each field.
abbrev pub htlc_of : (ℕ → ℕ) → HtlcInfo
htlc_of slot = record {
  sender_id = slot 0;
  recipient_id = slot 1;
  amount = slot 2;
  hashlock = from_be (word_bytes (slot 3) (slot 4) (slot 5) (slot 6));
  timelock = slot 7;
  status = slot 8;
  preimage = from_be (word_bytes (slot 9) (slot 10) (slot 11) (slot 12));
}

abbrev read_or_zero : Answers → ℕ → ℕ → ℕ
read_or_zero a id i = or_zero (get_storage a htlc_system_address (add64 (base_of id) i))

-- Only the first read has its error looked at.
unfoldable pub get_htlc : Answers → ℕ → Option HtlcInfo
unfolding get_storage
get_htlc a id = elim (get_storage a htlc_system_address (add64 (base_of id) 0)) [
  | none ↦ none
  | some sender ↦ some (htlc_of (read_or_zero a id))
]

abbrev finalized_or_zero : Answers → ℕ → ℕ → ℕ
finalized_or_zero a id i =
    elim (get_finalized_storage a htlc_system_address (add64 (base_of id) i)) [
      | some (some v) ↦ v
      | _ ↦ 0
    ]

-- Here it is the read of the status. `some none` without a finalized snapshot.
unfoldable pub get_finalized_htlc : Answers → ℕ → Option (Option HtlcInfo)
unfolding get_finalized_storage
get_finalized_htlc a id =
    elim (get_finalized_storage a htlc_system_address (add64 (base_of id) 8)) [
      | none ↦ none
      | some none ↦ some none
      | some (some status) ↦ some (some (htlc_of (finalized_or_zero a id)))
    ]

unfoldable pub get_next_htlc_id : Answers → Option ℕ
unfolding get_storage
get_next_htlc_id a = get_storage a htlc_system_address slot_counter
