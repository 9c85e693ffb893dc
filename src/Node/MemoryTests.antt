-- ===== src/Node/MemoryTests.antt =====
-- A node over tries that loads a root, and the theorems there.
use tylium.Prelude.{ℕ, ◌≡◌, ◌≢◌, none, some, [], refl, arith, ◌==◌, if◌then◌else◌}
use tylium.Bytes.{be, from_be, shift_in}
use tylium.State.Db
use tylium.Encoding.Account.{encode_account}
use tylium.Merkle.Node.{hash, leaf}
use tylium.Merkle.Tree.{Tree, NodeStore, get, get_at, set, set_at, root_hash}
use tylium.Node.Base.{Node, done}
use tylium.Node.Finality.{try_finalize}
use tylium.Node.Reorg.{rollback_to_height}
use tylium.Node.Memory.{trie_ops, IsLost, try_finalize-IsLost, rollback-stale}
use tylium.Node.Tests.{first_word, no_roots, libraries, hash_store, Hashes, no_contracts, mined}

-- The database over tries: an account in memory, and nothing in the stores.
abbrev bare_stores : ℕ → NodeStore
bare_stores a h = none

abbrev funded : Db.StateDb
funded =
    Db.set_account first_word bare_stores 1000
      (record { nonce = 0; balance = 1000; code_hash = 0; storage_root = 0 })
      (Db.new_db first_word bare_stores (bare_stores 0))

-- A node in memory mode, with a checkpoint for the root that it had at height 9.
abbrev in_memory : Node Db.StateDb Hashes
in_memory = record {
  genesis_height = 8;
  executor = record {
    state = funded;
    current_height = 10;
    coinbase = 0;
    contract_by_id = no_roots;
  };
  store = none;
  last_height = 10;
  state_root = 0;
  finalized_height = 0;
  finalized_root = 0;
  last_checkpoint = some mined;
  root_to_height = λ r. if r == 5 then some 9 else none;
}

funded-root : Db.root first_word bare_stores funded ≡ 3
unfolding Db.root Db.set_account set set_at root_hash hash be from_be shift_in encode_account get
    get_at
funded-root = refl

in_memory-root : Db.root first_word bare_stores funded ≢ 0
in_memory-root e = omega (arith, e, funded-root)

funded-bare : funded.global_trie.store ≡ (λ h. none)
unfolding Db.set_account set set_at get get_at
funded-bare = refl

try_finalize-IsLost_example :
    IsLost first_word bare_stores
      (try_finalize libraries
        (Db.db_ops first_word bare_stores)
        (trie_ops first_word bare_stores (λ m. []))
        hash_store
        in_memory).executor.state
try_finalize-IsLost_example =
    try_finalize-IsLost first_word bare_stores libraries hash_store (λ m. []) in_memory mined 9 refl
      refl (omega arith) funded-bare in_memory-root

-- A slot of account 9 in the cache.
abbrev slot_trie : Tree
slot_trie = record { root = leaf 3 (be 32 70); store = bare_stores 9 }

abbrev with_slot : Node Db.StateDb Hashes
with_slot = record in_memory {
  executor = record in_memory.executor {
    state = record funded { storage_tries = λ a. if a == 9 then some slot_trie else none };
  };
}

rollback-stale_example :
    (n' : Node Db.StateDb Hashes) × ((rollback_to_height libraries
          (Db.db_ops first_word bare_stores)
          (trie_ops first_word bare_stores (λ m. []))
          hash_store
          no_contracts
          8
          (λ h. 0)
          with_slot
        ≡ done n')
      × ((n'.state_root ≡ 0)
          × ((Db.get_storage first_word bare_stores 9 3 n'.executor.state).0
              ≡ (Db.get_storage first_word bare_stores 9 3 with_slot.executor.state).0)))
rollback-stale_example =
    rollback-stale first_word bare_stores libraries hash_store (λ m. []) no_contracts with_slot
      (λ h. 0) 9 3 slot_trie refl
