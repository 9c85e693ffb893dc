-- ===== src/Node/Finalized.antt =====
-- What moves the finalized height, of internal/node/node.go.
use tylium.Prelude.{
  ℕ, ◌<◌, ◌≡◌, ◌⊎◌, inl, inr, sym, ap, ◌∙◌, Bool, true, false, some, List, ltb, arith, Option-cases,
  Bool-cases,
}
use mathlib.Core.Path.{subst}
use tylium.Types.{Checkpoint}
use tylium.State.Ops.{StateOps}
use tylium.Scanner.Block.{ScanResult}
use tylium.Executor.Execute.{Receipt}
use tylium.Executor.Settle.{Registry}
use tylium.Executor.Block.{Block, process_block}
use tylium.Node.Base.{TrieOps, StoreOps, Outside, Node, done}
use tylium.Node.Finality.{process_checkpoints, try_finalize, finalize_at, persist_finalized}
use tylium.Node.Reorg.{has_any, at_tip, record_block, persist, take_block}
use tylium.Node.Bounded.{try_finalize-cases}

module _ {S D : Type 0} where
  -- The finalized height and root of a node.
  abbrev pub final : Node S D → ℕ × ℕ
  final n = (n.finalized_height, n.finalized_root)

  -- The height is higher than it was, and it is the height that is recorded for the root, which is
  -- that of the last checkpoint.
  pub record Raised (n n' : Node S D) (cp : Checkpoint) : Type 0 where
    pub last : n'.last_checkpoint ≡ some cp
    pub root : n'.finalized_root ≡ cp.state_root
    pub known : n'.root_to_height cp.state_root ≡ some n'.finalized_height
    pub higher : n.finalized_height < n'.finalized_height

  abbrev pub Advances : Node S D → Node S D → Type 0
  Advances n n' = (final n' ≡ final n) ⊎ ((cp : Checkpoint) × Raised n n' cp)

  Advances-from : (n₀ n n' : Node S D) → final n ≡ final n₀ → Advances n n' → Advances n₀ n'
  Advances-from n₀ n n' same (inl kept) = inl (kept ∙ same)
  Advances-from n₀ n n' same (inr (cp, r)) = inr (
    cp,
    record {
      last = r.last;
      root = r.root;
      known = r.known;
      higher = subst (λ (p : ℕ × ℕ). p.0 < n'.finalized_height) same r.higher;
    },
  )

module _ (o : Outside) {S D : Type 0} (ops : StateOps S) (tries : TrieOps S) (db : StoreOps D)
    (contracts : Registry → List (ℕ × ℕ)) where
  finalize_at-Advances :
      (h : ℕ) (cp : Checkpoint) (n : Node S D)
      → n.last_checkpoint ≡ some cp
      → n.root_to_height cp.state_root ≡ some h
      → Advances n (finalize_at o ops tries db h cp n)
  unfolding finalize_at persist_finalized
  finalize_at-Advances h cp n last known = elim (Bool-cases (ltb n.finalized_height h)) [
    | inl higher ↦ inr (
      cp,
      record {
        last = ground (arith, higher, last);
        root = ground (arith, higher);
        known = ground (arith, higher, known);
        higher = ground (arith, higher);
      },
    )
    | inr same ↦ inl (ground (arith, same))
  ]

  try_finalize-Advances : (n : Node S D) → Advances n (try_finalize o ops tries db n)
  try_finalize-Advances n = elim (try_finalize-cases o ops tries db contracts n) [
    | inl same ↦ inl (ap final same)
    | inr (cp, (h, (last, (known, (le, now))))) ↦
        subst (Advances n) (sym now) (finalize_at-Advances h cp n last known)
  ]

  process_checkpoints-final :
      (cps : List Checkpoint) (n : Node S D)
      → final (process_checkpoints o ops tries db cps n) ≡ final n
  unfolding process_checkpoints
  process_checkpoints-final cps n = ground arith

  persist-final :
      (block : Block) (rs : List Receipt) (n : Node S D)
      → final (persist o ops tries db contracts block rs n) ≡ final n
  unfolding persist
  persist-final block rs n = elim (Option-cases n.store) [
    | inl nothing ↦ ground (arith, nothing)
    | inr (d, there) ↦ ground (arith, there)
  ]

  record_block-Advances :
      (attested : Bool) (block : Block) (rs : List Receipt) (n : Node S D)
      → Advances n (record_block o ops tries db contracts attested block rs n)
  unfolding record_block
  record_block-Advances true block rs n =
      let n₁ : Node S D =
        persist o ops tries db contracts block rs (at_tip o ops tries db contracts block n) in
      Advances-from n n₁ (try_finalize o ops tries db n₁)
        (persist-final block rs (at_tip o ops tries db contracts block n))
        (try_finalize-Advances n₁)
  record_block-Advances false block rs n =
      inl (persist-final block rs (at_tip o ops tries db contracts block n))

  -- A block that the node takes leaves the finalized height and root as they were, or raises the
  -- height to the one that is recorded for the new root, and the new root is that of the node's last
  -- checkpoint.
  pub take_block-Advances :
      (r : ScanResult) (n n' : Node S D)
      → take_block o ops tries db contracts r n ≡ done n'
      → Advances n n'
  unfolding take_block
  take_block-Advances r n n' e =
      let n₁ : Node S D = process_checkpoints o ops tries db r.checkpoints n in
      elim (Option-cases (
        process_block o.crypto ops o.sort_slice r.l1_height r.l1_block_hash r.payloads
          n₁.executor)) [
            | inl crashed ↦ ground (arith, crashed, e)
            | inr (((block, rs), x), ran) ↦
                let taken : record_block o ops tries db contracts (has_any r.checkpoints) block rs
                      (record n₁ { executor = x })
                    ≡ n' =
                  ground (arith, ran, e) in
                subst (Advances n) taken (
                  Advances-from n (record n₁ { executor = x })
                    (record_block o ops tries db contracts (has_any r.checkpoints) block rs
                      (record n₁ { executor = x }))
                    (process_checkpoints-final r.checkpoints n)
                    (record_block-Advances (has_any r.checkpoints) block rs
                      (record n₁ { executor = x })))
          ]
