-- ===== src/Node/Sync.antt =====
-- internal/node/node.go: the blocks that the node takes, one by one up to the tip (`Sync`), or as the
-- scanner sends them (`Follow`).
use tylium.Prelude.{ℕ, zero, suc, ◌-◌, Option, none, some, List, [], ◌∷◌, leb, if◌then◌else◌}
use tylium.Prelude.Words.{add64}
use tylium.State.Ops.{StateOps}
use tylium.Scanner.Block.{BtcBlock, ScanResult, scan_block}
use tylium.Executor.Settle.{Registry}
use tylium.Node.Base.{
  TrieOps, StoreOps, Outside, Node, no_tip, no_l1_block, Step, done, failed, panicked, ◌>>=◌,
}
use tylium.Node.Reorg.{take_block, detect_and_handle_reorg}

module _ (o : Outside) {S D : Type 0} (ops : StateOps S) (tries : TrieOps S) (db : StoreOps D)
    (contracts : Registry → List (ℕ × ℕ)) where
  unfoldable pub process_height : (ℕ → Option BtcBlock) → ℕ → Node S D → Step (Node S D)
  process_height chain height n = elim (scan_block o.index chain height) [
    | none ↦ failed (no_l1_block height) n
    | some r ↦
        detect_and_handle_reorg o ops tries db contracts chain r n
        >>= take_block o ops tries db contracts r
  ]

  -- The loop of `Sync`, with a round for each height up to the tip, for a tip below 2^64 - 1.
  unfoldable pub sync_from : (ℕ → Option BtcBlock) → ℕ → ℕ → Node S D → Step (Node S D)
  unfolding process_height
  sync_from chain zero height n = done n
  sync_from chain (suc rounds) height n =
      process_height chain height n >>= sync_from chain rounds (add64 height 1)

  -- `tip` is what `GetBestBlockHeight` returns; the context is not cancelled.
  unfoldable pub sync : (ℕ → Option BtcBlock) → Option ℕ → Node S D → Step (Node S D)
  unfolding sync_from
  sync chain none n = failed no_tip n
  sync chain (some tip) n =
      if leb tip n.last_height
      then done n
      else sync_from chain (tip - n.last_height) (add64 n.last_height 1) n

  -- One round of `Follow`: a block whose reorganisation cannot be handled is logged and left out.
  unfoldable pub follow_one : (ℕ → Option BtcBlock) → ScanResult → Node S D → Step (Node S D)
  follow_one chain r n = elim (detect_and_handle_reorg o ops tries db contracts chain r n) [
    | done n₁ ↦ take_block o ops tries db contracts r n₁
    | failed e n₁ ↦ done n₁
    | panicked ↦ panicked
  ]

  unfoldable pub follow : (ℕ → Option BtcBlock) → List ScanResult → Node S D → Step (Node S D)
  unfolding follow_one
  follow chain [] n = done n
  follow chain (r ∷ rs) n = follow_one chain r n >>= follow chain rs
