-- ===== src/Store/Ops.antt =====
-- internal/store/store.go: the reads and writes, over a LevelDB.
use tylium.Prelude.{
  ℕ, zero, suc, ◌-◌, Bool, true, false, Option, none, some, List, [], ◌∷◌, map, ◌==◌, length, take,
  drop, if◌then◌else◌,
}
use tylium.Prelude.Words.{add64}
use tylium.Bytes.{be, from_be}
use tylium.Types.{bytes_to_hash256}
use tylium.Store.Keys.{
  Item, height, state_root, final_height, final_root, tx_count, code, block, contract, receipts,
  tx_receipt, tx_index, l1_hash, key_of, prefixed,
}

-- What LevelDB's `Get` returns: a value, `ErrNotFound`, or another error.
pub data Found : Type 0 where
  found : List ℕ → Found
  not_found broken : Found

-- A LevelDB with the state D. The Boolean of a write says that there was no error. `range` is an
-- iterator's entries, in their order, from the first key up to but without the second, `none` for
-- its error.
pub record Kv (D : Type 0) : Type 0 where
  pub get : List ℕ → D → Found
  pub put : List ℕ → List ℕ → D → Bool × D
  pub range : List ℕ → List ℕ → D → Option (List (List ℕ × List ℕ))
  pub delete_all : List (List ℕ) → D → Bool × D

-- What a read of the store returns.
pub data Read (A : Type 0) : Type 0 where
  value : A → Read A
  db_error invalid_data : Read A

module _ {D : Type 0} (kv : Kv D) where
  -- The three ways to read: bytes or nil, a number of eight bytes or 0, a hash or the zero hash.
  unfoldable pub read_bytes : Item → D → Read (Option (List ℕ))
  unfolding key_of
  read_bytes item d = elim (kv.get (key_of item) d) [
    | found bytes ↦ value (some bytes)
    | not_found ↦ value none
    | broken ↦ db_error
  ]

  unfoldable pub read_u64 : Item → D → Read ℕ
  unfolding key_of
  read_u64 item d = elim (kv.get (key_of item) d) [
    | found bytes ↦ if length bytes == 8 then value (from_be bytes) else invalid_data
    | not_found ↦ value 0
    | broken ↦ db_error
  ]

  unfoldable pub read_hash : Item → D → Read ℕ
  unfolding key_of
  read_hash item d = elim (kv.get (key_of item) d) [
    | found bytes ↦ value (bytes_to_hash256 bytes)
    | not_found ↦ value 0
    | broken ↦ db_error
  ]

  abbrev pub write : Item → List ℕ → D → Bool × D
  write item bytes d = kv.put (key_of item) bytes d

  abbrev pub get_code : ℕ → D → Read (Option (List ℕ))
  get_code h = read_bytes (code h)

  abbrev pub put_code : ℕ → List ℕ → D → Bool × D
  put_code h bytes = write (code h) bytes

  abbrev pub get_height : D → Read ℕ
  get_height = read_u64 height

  abbrev pub put_height : ℕ → D → Bool × D
  put_height n = write height (be 8 n)

  abbrev pub get_state_root : D → Read ℕ
  get_state_root = read_hash state_root

  abbrev pub put_state_root : ℕ → D → Bool × D
  put_state_root h = write state_root (be 32 h)

  abbrev pub put_block : ℕ → List ℕ → D → Bool × D
  put_block n data_bytes = write (block n) data_bytes

  abbrev pub get_block : ℕ → D → Read (Option (List ℕ))
  get_block n = read_bytes (block n)

  abbrev pub put_contract : ℕ → ℕ → D → Bool × D
  put_contract id a = write (contract id) (be 20 a)

  abbrev pub put_receipts : ℕ → List ℕ → D → Bool × D
  put_receipts n data_bytes = write (receipts n) data_bytes

  abbrev pub get_receipts : ℕ → D → Read (Option (List ℕ))
  get_receipts n = read_bytes (receipts n)

  abbrev pub get_finalized_height : D → Read ℕ
  get_finalized_height = read_u64 final_height

  abbrev pub put_finalized_height : ℕ → D → Bool × D
  put_finalized_height n = write final_height (be 8 n)

  abbrev pub get_finalized_root : D → Read ℕ
  get_finalized_root = read_hash final_root

  abbrev pub put_finalized_root : ℕ → D → Bool × D
  put_finalized_root h = write final_root (be 32 h)

  abbrev pub put_tx_receipt : ℕ → List ℕ → D → Bool × D
  put_tx_receipt id data_bytes = write (tx_receipt id) data_bytes

  abbrev pub get_tx_receipt : ℕ → D → Read (Option (List ℕ))
  get_tx_receipt id = read_bytes (tx_receipt id)

  abbrev pub put_tx_index : ℕ → ℕ → D → Bool × D
  put_tx_index i id = write (tx_index i) (be 32 id)

  abbrev pub get_tx_count : D → Read ℕ
  get_tx_count = read_u64 tx_count

  abbrev pub put_tx_count : ℕ → D → Bool × D
  put_tx_count n = write tx_count (be 8 n)

  abbrev pub put_l1_hash : ℕ → ℕ → D → Bool × D
  put_l1_hash n h = write (l1_hash n) (be 32 h)

  abbrev pub get_l1_hash : ℕ → D → Read ℕ
  get_l1_hash n = read_hash (l1_hash n)

  -- Every key with a letter's prefix: the limit is the prefix with its last byte one up.
  abbrev all_of : ℕ → D → Option (List (List ℕ × List ℕ))
  all_of letter = kv.range (prefixed letter []) (letter ∷ 48 ∷ [])

  -- The map of the codes, and that of the contracts, in the order of the keys.
  unfoldable pub list_codes : D → Option (List (ℕ × List ℕ))
  list_codes d = elim (all_of 99 d) [
    | none ↦ none
    | some entries ↦ some (map (λ e. (bytes_to_hash256 (drop 2 e.0), e.1)) entries)
  ]

  -- `BytesToAddress` takes the first twenty bytes.
  unfoldable pub list_contracts : D → Option (List (ℕ × ℕ))
  list_contracts d = elim (all_of 107 d) [
    | none ↦ none
    | some entries ↦
        some (map (λ e. (from_be (take 8 (drop 2 e.0)), from_be (take 20 e.1))) entries)
  ]

  -- `height + 1` wraps.
  unfoldable pub delete_l1_hashes_above : ℕ → D → Bool × D
  unfolding key_of
  delete_l1_hashes_above n d = elim (kv.range (key_of (l1_hash (add64 n 1))) (108 ∷ 48 ∷ []) d) [
    | none ↦ (false, d)
    | some [] ↦ (true, d)
    | some (e ∷ es) ↦ kv.delete_all (map (λ e'. e'.0) (e ∷ es)) d
  ]

  -- The loop of `ListRecentTxs`, from an index down; the entries that cannot be read are left out.
  unfoldable pub txs_down : ℕ → ℕ → D → List ℕ
  unfolding key_of
  txs_down zero limit d = []
  txs_down (suc i) limit d = elim limit [
    | zero ↦ []
    | suc more ↦ elim (kv.get (key_of (tx_index i)) d) [
      | found bytes ↦ bytes_to_hash256 bytes ∷ txs_down i more d
      | not_found ↦ txs_down i (suc more) d
      | broken ↦ txs_down i (suc more) d
    ]
  ]

  -- For a count below 2^63 and an offset and a limit that are not negative.
  unfoldable pub list_recent_txs : ℕ → ℕ → D → Read (List ℕ)
  unfolding txs_down
  list_recent_txs offset limit d = elim (get_tx_count d) [
    | value total ↦ value (txs_down (total - offset) limit d)
    | db_error ↦ db_error
    | invalid_data ↦ invalid_data
  ]
