-- ===== src/Store/Tests.antt =====
-- Two keys of the store, and a list of the newest transactions.
use tylium.Prelude.{ℕ, ◌≡◌, refl, arith, ◌+◌, ◌%◌, none, List, [], ◌∷◌, ◌==◌, true, if◌then◌else◌}
use tylium.Bytes.{be, from_be, shift_in}
use tylium.Types.{bytes_to_hash256}
use tylium.Store.Keys.{Item, l1_hash, key_of}
use tylium.Store.Distinct.{key_of-injective}
use tylium.Store.Ops.{Kv, Found, found, not_found, value, list_recent_txs, read_u64}

key_of-injective_example : l1_hash 7 ≡ l1_hash (3 + 4)
key_of-injective_example =
    key_of-injective (l1_hash 7) (l1_hash (3 + 4)) (omega arith) (omega arith) refl

-- A store that has the counter at three and the transaction 50 + i at each index i but 1.
abbrev indexed_get : List ℕ → Found
indexed_get [] = not_found
indexed_get (letter ∷ rest) =
    if letter == 105
    then (if from_be (letter ∷ rest) == from_be (key_of (Item.tx_index 1))
        then not_found
        else found ((50 + from_be rest % 256) ∷ []))
    else found (be 8 3)

abbrev indexed : Kv (Unit {0})
indexed = record {
  get = λ k d. indexed_get k;
  put = λ k v d. (true, d);
  range = λ from to d. none;
  delete_all = λ ks d. (true, d);
}

newest_two : list_recent_txs indexed 0 2 tt ≡ value (52 ∷ 50 ∷ [])
unfolding list_recent_txs read_u64 key_of be from_be shift_in bytes_to_hash256
newest_two = refl
