-- ===== src/Node/Restart.antt =====
-- internal/node/node.go over internal/store/store.go: the store as the node calls it, and `New`, which
-- restores a node from it.
use tylium.Prelude.{ℕ, ◌||◌, Option, none, some, List, [], ◌∷◌, ◌==◌, ltb, if◌then◌else◌}
use tylium.State.Ledger.{set_map}
use tylium.Executor.Settle.{Registry}
use tylium.Store.Ops.{Kv, Read, value, db_error, invalid_data}
use tylium.Store.Ops
use tylium.Node.Base.{TrieOps, StoreOps, Node}

abbrev pub or_error : {A : Type 0} → Read A → Option A
or_error (value a) = some a
or_error db_error = none
or_error invalid_data = none

-- `if v, err := …; err == nil`, where zero is the value without it.
abbrev pub or_zero : Read ℕ → ℕ
or_zero (value n) = n
or_zero db_error = 0
or_zero invalid_data = 0

abbrev registered : List (ℕ × ℕ) → Registry → Registry
registered [] registry = registry
registered ((id, a) ∷ rest) registry = registered rest (set_map id (some a) registry)

module _ {D : Type 0} (kv : Kv D) where
  abbrev pub store_ops : StoreOps D
  store_ops = record {
    get_l1_hash = λ n d. or_error (Ops.get_l1_hash kv n d);
    get_block = λ n d. or_error (Ops.get_block kv n d);
    get_tx_count = λ d. or_error (Ops.get_tx_count kv d);
    get_tx_receipt = λ id d. or_error (Ops.get_tx_receipt kv id d);
    put_height = λ n d. (Ops.put_height kv n d).1;
    put_state_root = λ h d. (Ops.put_state_root kv h d).1;
    put_l1_hash = λ n h d. (Ops.put_l1_hash kv n h d).1;
    put_block = λ n bytes d. (Ops.put_block kv n bytes d).1;
    put_receipts = λ n bytes d. (Ops.put_receipts kv n bytes d).1;
    put_tx_receipt = λ id bytes d. (Ops.put_tx_receipt kv id bytes d).1;
    put_tx_index = λ i id d. (Ops.put_tx_index kv i id d).1;
    put_tx_count = λ n d. (Ops.put_tx_count kv n d).1;
    put_code = λ h bytes d. (Ops.put_code kv h bytes d).1;
    put_contract = λ id a d. (Ops.put_contract kv id a d).1;
    put_finalized_height = λ n d. (Ops.put_finalized_height kv n d).1;
    put_finalized_root = λ h d. (Ops.put_finalized_root kv h d).1;
    delete_l1_hashes_above = λ n d. (Ops.delete_l1_hashes_above kv n d).1;
  }

  -- Never below genesis.
  unfoldable pub restored_height : ℕ → D → ℕ
  restored_height genesis d =
      let h = or_zero (Ops.get_height kv d) in if ltb genesis h then h else genesis

  module _ {S : Type 0} (tries : TrieOps S) (load_code : ℕ → List ℕ → S → S) where
    abbrev load_codes : List (ℕ × List ℕ) → S → S
    load_codes [] s = s
    load_codes ((h, code) ∷ rest) s = load_codes rest (load_code h code s)

    -- The state root, then the finalized snapshot, then the code.
    unfoldable pub restored_state : ℕ → ℕ → Option (List (ℕ × List ℕ)) → S → S
    restored_state root finalized codes s =
        let s₁ = if root == 0 then s else tries.load_trie_root root s in
        let s₂ =
          if (finalized == 0) || (root == 0)
          then s₁
          else tries.clear_storage_tries (
              tries.load_trie_root root (
                tries.snapshot_finalized
                  (tries.clear_storage_tries (tries.load_trie_root finalized s₁)))) in
        elim codes [ none ↦ s₂ | some listed ↦ load_codes listed s₂ ]

    -- `New` with a data directory that opens, on a new state database. The map of the roots is not
    -- restored.
    unfoldable pub restart : ℕ → S → D → Node S D
    unfolding restored_height restored_state
    restart genesis s d =
        let root = or_zero (Ops.get_state_root kv d) in
        let finalized = or_zero (Ops.get_finalized_root kv d) in
        record {
          genesis_height = genesis;
          executor = record {
            state = restored_state root finalized (Ops.list_codes kv d) s;
            current_height = 0;
            coinbase = 0;
            contract_by_id = elim (Ops.list_contracts kv d) [
              | none ↦ λ id. none
              | some listed ↦ registered listed (λ id. none)
            ];
          };
          store = some d;
          last_height = restored_height genesis d;
          state_root = root;
          finalized_height = or_zero (Ops.get_finalized_height kv d);
          finalized_root = finalized;
          last_checkpoint = none;
          root_to_height = λ r. none;
        }
