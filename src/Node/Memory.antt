-- ===== src/Node/Memory.antt =====
-- internal/node/node.go over internal/state/statedb.go: what becomes of the tries when the node loads
-- a root.
use tylium.Prelude.{
  ℕ, suc, ◌≤◌, ◌≡◌, ◌≢◌, inl, inr, sym, ap, ◌∙◌, Option, none, some, List, ltb, arith, ==_ne,
  ==_self, Bool-cases,
}
use mathlib.Core.Path.{subst}
use tylium.Bytes.{be}
use tylium.Encoding.Account.{encode_account}
use tylium.Types.{Account, Checkpoint}
use tylium.Merkle.Node.{hash_node, err, ok, ◌>>=◌, lazy_node, missing_node}
use tylium.Merkle.Tree.{Tree, NodeStore, get, get_at, set, set_at, resolve, load_root}
use tylium.State.Db
use tylium.Executor.Settle.{Registry}
use tylium.Node.Base.{TrieOps, StoreOps, Outside, Node, done}
use tylium.Node.Finality.{try_finalize, finalize_at, take_finalized, persist_finalized}
use tylium.Node.Reorg.{rollback_to_height, reset_to_genesis, cleaned}

module _ (sha256 : List ℕ → ℕ) (store_factory : ℕ → NodeStore) where
  -- The database as the node uses it. `list_codes` is the iteration over the map of the code.
  abbrev pub trie_ops : ((ℕ → Option (List ℕ)) → List (ℕ × List ℕ)) → TrieOps Db.StateDb
  trie_ops list_codes = record {
    load_trie_root = Db.load_trie_root sha256 store_factory;
    clear_storage_tries = Db.clear_storage_tries sha256 store_factory;
    flush_tries = Db.flush_tries sha256 store_factory;
    snapshot_finalized = Db.snapshot_finalized sha256 store_factory;
    all_codes = λ s. list_codes s.codes;
  }

  get_at-missing :
      (store : NodeStore) (f h key : ℕ)
      → store h ≡ none
      → get_at store (suc f) (hash_node h) key 0 ≡ err missing_node
  unfolding get_at resolve
  get_at-missing store f h key nothing = ground (arith, nothing)

  set_at-missing :
      (store : NodeStore) (f h key : ℕ) (v : List ℕ)
      → store h ≡ none
      → set_at store (suc f) (hash_node h) key v 0 ≡ err missing_node
  unfolding set_at resolve
  set_at-missing store f h key v nothing = ground (arith, nothing)

  -- A root that is loaded from a store without nodes cannot be read, and what is written to it is
  -- lost.
  unloaded : (t : Tree) (h : ℕ) → h ≢ 0 → lazy_node h ≡ hash_node h
  unloaded t h set = ground (arith, ==_ne h 0 set)

  unstored :
      (t : Tree) (h key : ℕ) → t.store h ≡ none → t.root ≡ hash_node h → Db.got (get t key) ≡ none
  unfolding get
  unstored t h key nothing at =
      ap Db.got (ap (λ r. get_at t.store 514 r key 0) at ∙ get_at-missing t.store 513 h key nothing)

  unstored-set :
      (t : Tree) (h key : ℕ) (v : List ℕ)
      → t.store h ≡ none
      → t.root ≡ hash_node h
      → Db.or_same t (set t key v) ≡ t
  unfolding set
  unstored-set t h key v nothing at =
      ap (λ r. Db.or_same t (r >>= λ n. ok (record t { root = n })))
        (ap (λ r. set_at t.store 514 r key v 0) at ∙ set_at-missing t.store 513 h key v nothing)

  -- The database as it is behind `tryFinalize`, of which only the global trie matters.
  pub record IsLost (s : Db.StateDb) : Type 0 where
    pub read : (a : ℕ) → Db.get_account sha256 store_factory a s ≡ none
    pub written :
        (a b : ℕ) (x : Account)
        → Db.get_account sha256 store_factory b (Db.set_account sha256 store_factory a x s) ≡ none

  lost :
      (s : Db.StateDb) (h : ℕ)
      → s.global_trie.store h ≡ none
      → s.global_trie.root ≡ hash_node h
      → IsLost s
  unfolding Db.get_account Db.set_account
  lost s h nothing at = record {
    read = λ a.
        ap (Db.decoded sha256 store_factory)
          (unstored s.global_trie h (sha256 (be 20 a)) nothing at);
    written = λ a b x. ap (Db.decoded sha256 store_factory) (
        ap (λ t. Db.got (get t (sha256 (be 20 b))))
          (unstored-set s.global_trie h (sha256 (be 20 a)) (encode_account x) nothing at)
        ∙ unstored s.global_trie h (sha256 (be 20 b)) nothing at);
  }

  slot_of :
      (s : Db.StateDb) (a k : ℕ) (t : Tree)
      → s.storage_tries a ≡ some t
      → (Db.get_storage sha256 store_factory a k s).0
        ≡ Db.slot_value sha256 store_factory (Db.got (get t k))
  unfolding Db.get_storage Db.get_storage_trie
  slot_of s a k t cached = ground (arith, cached)

  module _ (o : Outside) {D : Type 0} (db : StoreOps D)
      (list_codes : (ℕ → Option (List ℕ)) → List (ℕ × List ℕ)) where
    take_finalized-lost :
        (root : ℕ) (s : Db.StateDb)
        → (s.global_trie.store ≡ λ j. none)
        → Db.root sha256 store_factory s ≢ 0
        → IsLost (take_finalized o (Db.db_ops sha256 store_factory) (trie_ops list_codes) db root s)
    unfolding take_finalized Db.load_trie_root Db.clear_storage_tries Db.snapshot_finalized
        load_root
    take_finalized-lost root s bare set =
        lost (take_finalized o (Db.db_ops sha256 store_factory) (trie_ops list_codes) db root s)
          (Db.root sha256 store_factory s)
          (ap (λ (m : NodeStore). m (Db.root sha256 store_factory s)) bare)
          (unloaded s.global_trie (Db.root sha256 store_factory s) set)

    -- On a database whose global trie has a store without nodes and a root hash that is not zero,
    -- `tryFinalize` with a last checkpoint for a root that is known at a height, not below the
    -- finalized one, leaves a state in which no account can be read, nor any after a write of an
    -- account.
    pub try_finalize-IsLost :
        (n : Node Db.StateDb D) (cp : Checkpoint) (h : ℕ)
        → n.last_checkpoint ≡ some cp
        → n.root_to_height cp.state_root ≡ some h
        → n.finalized_height ≤ h
        → (n.executor.state.global_trie.store ≡ λ j. none)
        → Db.root sha256 store_factory n.executor.state ≢ 0
        → IsLost
            (try_finalize o
              (Db.db_ops sha256 store_factory)
              (trie_ops list_codes)
              db
              n).executor.state
    unfolding try_finalize finalize_at persist_finalized
    try_finalize-IsLost n cp h last known le bare set =
        elim (Bool-cases (ltb n.finalized_height h)) [
          | inl higher ↦
              subst IsLost
                {x = take_finalized o (Db.db_ops sha256 store_factory) (trie_ops list_codes) db
                  cp.state_root n.executor.state}
                (ground (arith, last, known, le, higher))
                (take_finalized-lost cp.state_root n.executor.state bare set)
          | inr same ↦
              subst IsLost
                {x = take_finalized o (Db.db_ops sha256 store_factory) (trie_ops list_codes) db
                  n.finalized_root n.executor.state}
                (ground (arith, last, known, le, same))
                (take_finalized-lost n.finalized_root n.executor.state bare set)
        ]

    module _ (contracts : Registry → List (ℕ × ℕ)) where
      reset-cached :
          (n : Node Db.StateDb D) (a : ℕ) (t : Tree)
          → n.executor.state.storage_tries a ≡ some t
          → ((reset_to_genesis o
                (Db.db_ops sha256 store_factory)
                (trie_ops list_codes)
                db
                contracts
                n).state_root
              ≡ 0)
            × ((reset_to_genesis o
                    (Db.db_ops sha256 store_factory)
                    (trie_ops list_codes)
                    db
                    contracts
                    n).executor.state.storage_tries
                  a
                ≡ some t)
      unfolding reset_to_genesis persist_finalized Db.load_trie_root
      reset-cached n a t cached = elim (Bool-cases (ltb n.genesis_height n.finalized_height)) [
        | inl past ↦ (ground (arith, past), ground (arith, past, cached))
        | inr kept ↦ (ground (arith, kept), ground (arith, kept, cached))
      ]

      -- On the database over tries, a rollback to the genesis height succeeds and sets the state
      -- root to zero, and each slot of an account whose storage trie is in the cache reads as before.
      pub rollback-stale :
          (n : Node Db.StateDb D) (d : D) (a k : ℕ) (t : Tree)
          → n.executor.state.storage_tries a ≡ some t
          → (n' : Node Db.StateDb D) × ((rollback_to_height o
                  (Db.db_ops sha256 store_factory)
                  (trie_ops list_codes)
                  db
                  contracts
                  n.genesis_height
                  d
                  n
                ≡ done n')
              × ((n'.state_root ≡ 0)
                  × ((Db.get_storage sha256 store_factory a k n'.executor.state).0
                      ≡ (Db.get_storage sha256 store_factory a k n.executor.state).0)))
      unfolding rollback_to_height
      rollback-stale n d a k t cached = (
        cleaned o (Db.db_ops sha256 store_factory) (trie_ops list_codes) db contracts
            n.genesis_height
            (reset_to_genesis o (Db.db_ops sha256 store_factory) (trie_ops list_codes) db contracts
              n),
        (
          ground (arith, ==_self n.genesis_height),
          (
            past.0,
            slot_of n₁.executor.state a k t past.1 ∙ sym (slot_of n.executor.state a k t cached),
          ),
        ),
      )
        where
          n₁ : Node Db.StateDb D
          n₁ =
              reset_to_genesis o (Db.db_ops sha256 store_factory) (trie_ops list_codes) db contracts
                n

          past : (n₁.state_root ≡ 0) × (n₁.executor.state.storage_tries a ≡ some t)
          past = reset-cached n a t cached
