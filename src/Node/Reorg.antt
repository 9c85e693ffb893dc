-- ===== src/Node/Reorg.antt =====
-- internal/node/node.go: taking a block, and what happens when its parent is not the one that is
-- stored. The Bitcoin chain, as `GetBlockByHeight` shows it during a call, is a function.
use tylium.Prelude.{
  ℕ, zero, suc, ◌+◌, ◌-◌, Bool, true, false, ◌||◌, Option, none, some, List, [], ◌∷◌, ◌==◌, ltb,
  if◌then◌else◌,
}
use tylium.Prelude.Words.{add64, sub64}
use tylium.Types.{Checkpoint, is_zero}
use tylium.State.Ops.{StateOps}
use tylium.State.Ledger.{set_map}
use tylium.Scanner.Block.{BtcBlock, ScanResult, scan_block}
use tylium.Executor.Execute.{Receipt}
use tylium.Executor.Settle.{Registry}
use tylium.Executor.Block.{Block, process_block}
use tylium.Node.Base.{
  TrieOps, StoreOps, Outside, Node, with_state, with_store, set_coinbase, NodeError, no_l1_hash,
  out_of_rounds, no_l1_block, no_block_data, bad_block, Step, done, failed, panicked, ◌>>=◌,
}
use tylium.Node.Finality.{process_checkpoints, try_finalize, persist_finalized}

-- `len(checkpoints) > 0`
abbrev pub has_any : List Checkpoint → Bool
has_any [] = false
has_any (cp ∷ cps) = true

-- What `findForkPoint` returns.
pub data Fork : Type 0 where
  fork_at : ℕ → Fork
  no_fork : NodeError → Fork

-- `contracts` lists the entries of the registry.
module _ (o : Outside) {S D : Type 0} (ops : StateOps S) (tries : TrieOps S) (db : StoreOps D)
    (contracts : Registry → List (ℕ × ℕ)) where
  -- The receipt that is there; nil behind an error.
  abbrev pub existing_receipt : ℕ → D → Option (List ℕ)
  existing_receipt id d = elim (db.get_tx_receipt id d) [ none ↦ none | some e ↦ e ]

  -- The receipts by transaction; the counter goes up for an identifier that is new.
  unfoldable pub index_receipts : ℕ → List Receipt → D → ℕ × D
  index_receipts count [] d = (count, d)
  index_receipts count (r ∷ rs) d =
      let existing = existing_receipt r.txid d in
      let d₁ = db.put_tx_receipt r.txid (o.marshal_receipt r) d in
      let known = index_receipts count rs d₁ in
      let fresh = index_receipts (add64 count 1) rs (db.put_tx_index count r.txid d₁) in
      elim existing [ some e ↦ known | none ↦ fresh ]

  -- The counter, which is zero behind an error.
  abbrev pub stored_count : D → ℕ
  stored_count d = elim (db.get_tx_count d) [ none ↦ 0 | some k ↦ k ]

  unfoldable pub persist_receipts : ℕ → List Receipt → D → D
  persist_receipts height [] d = d
  persist_receipts height (r ∷ rs) d =
      let indexed =
        index_receipts (stored_count (db.put_receipts height (o.marshal_receipts (r ∷ rs)) d))
          (r ∷ rs) (db.put_receipts height (o.marshal_receipts (r ∷ rs)) d) in
      db.put_tx_count indexed.0 indexed.1

  abbrev pub persist_codes : List (ℕ × List ℕ) → D → D
  persist_codes [] d = d
  persist_codes ((h, code) ∷ rest) d = persist_codes rest (db.put_code h code d)

  abbrev pub persist_contracts : List (ℕ × ℕ) → D → D
  persist_contracts [] d = d
  persist_contracts ((id, a) ∷ rest) d = persist_contracts rest (db.put_contract id a d)

  unfoldable pub persist_block : Block → List Receipt → List (ℕ × List ℕ) → Registry → D → D
  unfolding persist_receipts
  persist_block block receipts codes registry d = persist_contracts (contracts registry) (
      persist_codes codes (
        persist_receipts block.height receipts (
          db.put_block block.height (o.marshal_block block) (
            db.put_l1_hash block.height block.l1_block_hash
              (db.put_state_root block.state_root (db.put_height block.height d))))))

  -- Nothing happens without a store.
  unfoldable pub persist : Block → List Receipt → Node S D → Node S D
  unfolding persist_block
  persist block receipts n = elim n.store [
    | none ↦ n
    | some d ↦
        let n₁ = with_state tries.flush_tries n in
        with_store
          (persist_block block receipts (tries.all_codes n₁.executor.state)
            n₁.executor.contract_by_id)
          n₁
  ]

  abbrev pub at_tip : Block → Node S D → Node S D
  at_tip block n = record n {
    last_height = block.height;
    state_root = block.state_root;
    root_to_height = set_map block.state_root (some block.height) n.root_to_height;
  }

  -- Behind the execution of the block.
  unfoldable pub record_block : Bool → Block → List Receipt → Node S D → Node S D
  unfolding persist try_finalize
  record_block attested block receipts n =
      let n₁ = persist block receipts (at_tip block n) in
      if attested then try_finalize o ops tries db n₁ else n₁

  -- What `processBlock`, `reprocessBlock` and `Follow` do with a scanned block.
  unfoldable pub take_block : ScanResult → Node S D → Step (Node S D)
  unfolding process_checkpoints process_block record_block
  take_block r n =
      let n₁ = process_checkpoints o ops tries db r.checkpoints n in
      elim (process_block o.crypto ops o.sort_slice r.l1_height r.l1_block_hash r.payloads
        n₁.executor) [
          | none ↦ panicked
          | some ((block, receipts), e) ↦
              done
                (record_block (has_any r.checkpoints) block receipts (record n₁ { executor = e }))
        ]

  unfoldable pub reprocess_block : (ℕ → Option BtcBlock) → ℕ → Node S D → Step (Node S D)
  unfolding take_block
  reprocess_block chain height n = elim (scan_block o.index chain height) [
    | none ↦ failed (no_l1_block height) n
    | some r ↦ take_block r n
  ]

  unfoldable pub reprocess_from : (ℕ → Option BtcBlock) → ℕ → ℕ → Node S D → Step (Node S D)
  unfolding reprocess_block
  reprocess_from chain zero height n = done n
  reprocess_from chain (suc rounds) height n =
      reprocess_block chain height n >>= reprocess_from chain rounds (add64 height 1)

  -- The loop of `findForkPoint`; `h--` wraps at zero.
  unfoldable pub fork_from : (ℕ → Option BtcBlock) → ℕ → D → ℕ → ℕ → Fork
  fork_from chain genesis d zero h = no_fork out_of_rounds
  fork_from chain genesis d (suc rounds) h =
      let rest = fork_from chain genesis d rounds (sub64 h 1) in
      if ltb h genesis then fork_at genesis else elim (db.get_l1_hash h d) [
        | none ↦ no_fork no_l1_hash
        | some stored ↦ if is_zero stored then fork_at h else elim (chain h) [
          | none ↦ no_fork (no_l1_block h)
          | some block ↦ if stored == block.hash then fork_at h else rest
        ]
      ]

  -- Two rounds more than the heights from zero to the first one.
  unfoldable pub find_fork_point : (ℕ → Option BtcBlock) → ℕ → D → ℕ → Fork
  unfolding fork_from
  find_fork_point chain genesis d h = fork_from chain genesis d (h + 2) h

  -- The block that is stored at a height, if it is there and can be read.
  unfoldable pub stored_block : ℕ → D → Option Block
  stored_block h d = elim (db.get_block h d) [
    | none ↦ none
    | some none ↦ none
    | some (some bytes) ↦ o.unmarshal_block bytes
  ]

  -- The loop that builds `rootToHeight` again.
  unfoldable pub roots_from : ℕ → ℕ → D → (ℕ → Option ℕ) → ℕ → Option ℕ
  unfolding stored_block
  roots_from zero h d m = m
  roots_from (suc rounds) h d m =
      let m₁ : ℕ → Option ℕ = (elim (stored_block h d) [
        | none ↦ m
        | some b ↦ set_map b.state_root (some h) m
      ]) in
      roots_from rounds (add64 h 1) d m₁

  -- Behind both branches of `rollbackToHeight`.
  unfoldable pub cleaned : ℕ → Node S D → Node S D
  cleaned height n =
      with_store
        (λ d.
          db.put_state_root n.state_root
            (db.put_height n.last_height (db.delete_l1_hashes_above height d)))
        n

  unfoldable pub reset_to_genesis : Node S D → Node S D
  unfolding persist_finalized
  reset_to_genesis n =
      let n₁ = set_coinbase 0 (
        with_state (tries.load_trie_root 0) (record n {
          last_height = n.genesis_height;
          state_root = 0;
          root_to_height = λ r. none;
          last_checkpoint = none;
        })) in
      if ltb n.genesis_height n.finalized_height
      then persist_finalized o ops tries db (record n₁ { finalized_height = 0; finalized_root = 0 })
      else n₁

  unfoldable pub reset_to_block : ℕ → Block → D → Node S D → Node S D
  unfolding persist_finalized roots_from
  reset_to_block height block d n =
      let n₁ = set_coinbase 0 (
        with_state (λ s. tries.clear_storage_tries (tries.load_trie_root block.state_root s))
          (record n {
            last_height = height;
            state_root = block.state_root;
            root_to_height =
                roots_from (height - n.genesis_height) (add64 n.genesis_height 1) d (λ r. none);
            last_checkpoint = none;
          })) in
      if ltb height n.finalized_height
      then persist_finalized o ops tries db
          (record n₁ { finalized_height = height; finalized_root = block.state_root })
      else n₁

  unfoldable pub rollback_to_height : ℕ → D → Node S D → Step (Node S D)
  unfolding cleaned reset_to_genesis reset_to_block
  rollback_to_height height d n =
      if height == n.genesis_height
      then done (cleaned height (reset_to_genesis n))
      else elim (db.get_block height d) [
        | none ↦ failed (no_block_data height) n
        | some none ↦ failed (no_block_data height) n
        | some (some bytes) ↦ elim (o.unmarshal_block bytes) [
          | none ↦ failed (bad_block height) n
          | some block ↦ done (cleaned height (reset_to_block height block d n))
        ]
      ]

  -- The parent is another one: the fork point, the rollback, and the blocks up to this one again.
  unfoldable pub handle_reorg :
      (ℕ → Option BtcBlock) → ScanResult → ℕ → D → Node S D → Step (Node S D)
  handle_reorg chain r prev_height d n =
      elim (find_fork_point chain n.genesis_height d prev_height) [
        | no_fork e ↦ failed e n
        | fork_at fork ↦
            rollback_to_height fork d n
            >>= reprocess_from chain (r.l1_height - (fork + 1)) (add64 fork 1)
      ]

  unfoldable pub detect_and_handle_reorg :
      (ℕ → Option BtcBlock) → ScanResult → Node S D → Step (Node S D)
  detect_and_handle_reorg chain r n = elim n.store [
    | none ↦ done n
    | some d ↦
        let prev_height = sub64 r.l1_height 1 in
        if ltb prev_height n.genesis_height then done n else elim (db.get_l1_hash prev_height d) [
          | none ↦ failed no_l1_hash n
          | some stored ↦
              if is_zero stored || (stored == r.l1_prev_hash)
              then done n
              else handle_reorg chain r prev_height d n
        ]
  ]
