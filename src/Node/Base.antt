-- ===== src/Node/Base.antt =====
-- internal/node/node.go: the node's state, and what it asks of the state database, the store and
-- the libraries.
use tylium.Prelude.{ℕ, Bool, Option, none, some, List}
use tylium.Types.{Transaction, Checkpoint}
use tylium.Executor.Execute.{Crypto, Receipt}
use tylium.Executor.Block.{Executor, Block}

-- The operations of the state database beside those that the executor calls. The error of
-- `FlushTries` is only logged.
pub record TrieOps (S : Type 0) : Type 0 where
  pub load_trie_root : ℕ → S → S
  pub clear_storage_tries : S → S
  pub flush_tries : S → S
  pub snapshot_finalized : S → S
  pub all_codes : S → List (ℕ × List ℕ)

-- The store as the node calls it. A read gives `none` on an error, and `some none` if nothing is
-- there; the node drops the errors of the writes.
pub record StoreOps (D : Type 0) : Type 0 where
  pub get_l1_hash : ℕ → D → Option ℕ
  pub get_block : ℕ → D → Option (Option (List ℕ))
  pub get_tx_count : D → Option ℕ
  pub get_tx_receipt : ℕ → D → Option (Option (List ℕ))
  pub put_height : ℕ → D → D
  pub put_state_root : ℕ → D → D
  pub put_l1_hash : ℕ → ℕ → D → D
  pub put_block : ℕ → List ℕ → D → D
  pub put_receipts : ℕ → List ℕ → D → D
  pub put_tx_receipt : ℕ → List ℕ → D → D
  pub put_tx_index : ℕ → ℕ → D → D
  pub put_tx_count : ℕ → D → D
  pub put_code : ℕ → List ℕ → D → D
  pub put_contract : ℕ → ℕ → D → D
  pub put_finalized_height : ℕ → D → D
  pub put_finalized_root : ℕ → D → D
  pub delete_l1_hashes_above : ℕ → D → D

-- The libraries: JSON, sorting, the elliptic curve with `ParsePubKey` and `SerializeCompressed`, which
-- crypto.DecompressPubKey and PublicKey.Address call, and `bytes.Index` for the scan.
pub record Outside : Type 0 where
  pub crypto : Crypto
  pub sort_slice : (Transaction → Transaction → Bool) → List Transaction → List Transaction
  pub index : List ℕ → Option ℕ
  pub decompress_pub_key : ℕ → Option ℕ
  pub serialize_compressed : ℕ → ℕ
  pub marshal_block : Block → List ℕ
  pub unmarshal_block : List ℕ → Option Block
  pub marshal_receipts : List Receipt → List ℕ
  pub marshal_receipt : Receipt → List ℕ

-- The fields of the Go struct, and the genesis height of its configuration. There is no store in
-- memory mode. The chain and the scanner are arguments of the functions that use them.
pub record Node (S D : Type 0) : Type 0 where
  pub genesis_height : ℕ
  pub executor : Executor S
  pub store : Option D
  pub last_height : ℕ
  pub state_root : ℕ
  pub finalized_height : ℕ
  pub finalized_root : ℕ
  pub last_checkpoint : Option Checkpoint
  pub root_to_height : ℕ → Option ℕ

pub data NodeError : Type 0 where
  no_tip no_l1_hash out_of_rounds : NodeError
  no_l1_block no_block_data bad_block : ℕ → NodeError

-- What a handler leaves: the node as it is then, also behind an error; a panic leaves none.
pub data Step (N : Type 0) : Type 0 where
  done : N → Step N
  failed : NodeError → N → Step N
  panicked : Step N

infixl 5 ◌>>=◌
abbrev pub ◌>>=◌ : {N : Type 0} → Step N → (N → Step N) → Step N
done n >>= f = f n
failed e n >>= f = failed e n
panicked >>= f = panicked

module _ {S D : Type 0} where
  abbrev pub with_state : (S → S) → Node S D → Node S D
  with_state f n = record n { executor = record n.executor { state = f n.executor.state } }

  -- `n.store.Put…`, on a node that may have no store.
  abbrev pub with_store : (D → D) → Node S D → Node S D
  with_store f n = record n { store = elim n.store [ none ↦ none | some d ↦ some (f d) ] }

  abbrev pub set_coinbase : ℕ → Node S D → Node S D
  set_coinbase a n = record n { executor = record n.executor { coinbase = a } }
