-- ===== src/Node/Finality.antt =====
-- internal/node/node.go: checkpoints, the coinbase they choose, and the finalized height.
use Prim.Native.Nat.{Ordering}
use tylium.Prelude.{
  ℕ, Bool, false, ◌&&◌, not, Option, none, some, List, [], ◌∷◌, ◌==◌, ltb, if◌then◌else◌,
}
use tylium.Types.{Checkpoint, is_zero}
use tylium.Signature.{verify, pub_key_to_address}
use tylium.Miner.{compare_attestations, attestation_of, checkpoint_signing_hash}
use tylium.State.Ops.{StateOps}
use tylium.Node.Base.{TrieOps, StoreOps, Outside, Node, with_state, with_store, set_coinbase}

module _ (o : Outside) {S D : Type 0} (ops : StateOps S) (tries : TrieOps S) (db : StoreOps D) where
  unfoldable pub validate_checkpoint : Node S D → Checkpoint → Bool
  validate_checkpoint n cp =
      if not (is_zero n.finalized_root) && (cp.state_root == n.finalized_root)
      then false
      else if not
          (cp.attestation_hash == attestation_of o.crypto.sha256 cp.miner_nonce cp.state_root)
      then false
      else elim (o.decompress_pub_key cp.miner_pub_key) [
        | none ↦ false
        | some key ↦
            verify o.crypto.sha256 o.crypto.curve (checkpoint_signing_hash o.crypto.sha256 cp)
              cp.signature key
      ]

  -- One round of the loop: the earlier one stays unless the new one is closer to its own root.
  unfoldable pub better : Node S D → Checkpoint → Option Checkpoint → Option Checkpoint
  better n cp best = if not (validate_checkpoint n cp) then best else elim best [
    | none ↦ some cp
    | some b ↦ elim (compare_attestations cp b cp.state_root) [ Ordering.lt ↦ some cp | _ ↦ some b ]
  ]

  unfoldable pub best_of : Node S D → List Checkpoint → Option Checkpoint → Option Checkpoint
  unfolding better
  best_of n [] best = best
  best_of n (cp ∷ cps) best = best_of n cps (better n cp best)

  unfoldable pub process_checkpoints : List Checkpoint → Node S D → Node S D
  unfolding best_of
  process_checkpoints cps n = elim (best_of n cps none) [
    | none ↦ n
    | some best ↦ elim (o.decompress_pub_key best.miner_pub_key) [
      | none ↦ n
      | some key ↦
          record (set_coinbase
            (pub_key_to_address o.crypto.sha256 o.crypto.curve (o.serialize_compressed key)) n) {
              last_checkpoint = some best;
            }
    ]
  ]

  unfoldable pub persist_finalized : Node S D → Node S D
  persist_finalized n =
      with_store
        (λ d. db.put_finalized_root n.finalized_root (db.put_finalized_height n.finalized_height d))
        n

  -- The finalized root is loaded for the snapshot only; the current one comes back.
  unfoldable pub take_finalized : ℕ → S → S
  take_finalized finalized_root s =
      let current = ops.root s in
      tries.clear_storage_tries (
        tries.load_trie_root current (
          tries.snapshot_finalized
            (tries.clear_storage_tries (tries.load_trie_root finalized_root s))))

  unfoldable pub finalize_at : ℕ → Checkpoint → Node S D → Node S D
  unfolding persist_finalized take_finalized
  finalize_at h cp n =
      let n₁ =
        if ltb n.finalized_height h
        then persist_finalized (record n { finalized_height = h; finalized_root = cp.state_root })
        else n in
      with_state (take_finalized n₁.finalized_root) n₁

  unfoldable pub try_finalize : Node S D → Node S D
  unfolding finalize_at
  try_finalize n = elim n.last_checkpoint [
    | none ↦ n
    | some cp ↦ elim (n.root_to_height cp.state_root) [
      | none ↦ n
      | some h ↦ if ltb h n.finalized_height then n else finalize_at h cp n
    ]
  ]
