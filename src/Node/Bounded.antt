-- ===== src/Node/Bounded.antt =====
-- The heights of the node's state, of internal/node/node.go, over the blocks that it takes.
use tylium.Prelude.{
  ℕ, ◌≤◌, ◌≡◌, ◌⊎◌, inl, inr, refl, sym, ap, ◌∙◌, Bool, true, false, Option, some, List, ◌==◌, ltb,
  arith, Option-cases, Bool-cases,
}
use mathlib.Core.Path.{subst}
use tylium.Types.{Checkpoint}
use tylium.State.Ops.{StateOps}
use tylium.State.Ledger.{set_map}
use tylium.Scanner.Block.{ScanResult}
use tylium.Executor.Execute.{Receipt}
use tylium.Executor.Settle.{Registry}
use tylium.Executor.Block.{Block, Executor, process_block, run_block}
use tylium.Node.Base.{TrieOps, StoreOps, Outside, Node, Step, done, failed, panicked}
use tylium.Node.Finality.{process_checkpoints, try_finalize, finalize_at, persist_finalized}
use tylium.Node.Reorg.{at_tip, record_block, persist, take_block, has_any}

-- A node with this genesis height and this last height, and with no height above the last one:
-- neither the finalized one nor that of a root.
pub record At {S D : Type 0} (g l : ℕ) (n : Node S D) : Type 0 where
  pub genesis : n.genesis_height ≡ g
  pub last : n.last_height ≡ l
  pub finalized : n.finalized_height ≤ l
  pub roots : (r h : ℕ) → n.root_to_height r ≡ some h → h ≤ l

abbrev pub Bounded : {S D : Type 0} → Node S D → Type 0
Bounded n = At n.genesis_height n.last_height n

-- The four fields that `At` is about.
abbrev pub heights : {S D : Type 0} → Node S D → ℕ × (ℕ × (ℕ × (ℕ → Option ℕ)))
heights n = (n.genesis_height, (n.last_height, (n.finalized_height, n.root_to_height)))

pub heights-At :
    {S D : Type 0} (n : Node S D) {g l f : ℕ} {m : ℕ → Option ℕ}
    → heights n ≡ (g, (l, (f, m)))
    → f ≤ l
    → ((r h : ℕ) → m r ≡ some h → h ≤ l)
    → At g l n
heights-At n {l = l} are f roots =
    let back = sym are in
    record {
      genesis = ap (λ t. t.0) are;
      last = ap (λ t. t.1.0) are;
      finalized = subst (λ (t : ℕ × (ℕ × (ℕ × (ℕ → Option ℕ)))). t.1.1.0 ≤ l) back f;
      roots =
          subst (λ (t : ℕ × (ℕ × (ℕ × (ℕ → Option ℕ)))). (r k : ℕ) → t.1.1.1 r ≡ some k → k ≤ l)
            back roots;
    }

pub same-At :
    {S D : Type 0} {g l : ℕ} (n n' : Node S D) → heights n' ≡ heights n → At g l n → At g l n'
same-At {g = g} {l = l} n n' same h =
    let back = sym same in
    record {
      genesis = ap (λ t. t.0) same ∙ h.genesis;
      last = ap (λ t. t.1.0) same ∙ h.last;
      finalized = subst (λ (t : ℕ × (ℕ × (ℕ × (ℕ → Option ℕ)))). t.1.1.0 ≤ l) back h.finalized;
      roots =
          subst (λ (t : ℕ × (ℕ × (ℕ × (ℕ → Option ℕ)))). (r k : ℕ) → t.1.1.1 r ≡ some k → k ≤ l)
            back h.roots;
    }

pub set_map-bound :
    (m : ℕ → Option ℕ) (root height top : ℕ)
    → ((r h : ℕ) → m r ≡ some h → h ≤ top)
    → height ≤ top
    → (r h : ℕ) → set_map root (some height) m r ≡ some h
    → h ≤ top
set_map-bound m root height top bounds le r h e = elim (Bool-cases (root == r)) [
  | inl same ↦ ground (arith, same, e, le)
  | inr other ↦ bounds r h (ground (arith, other, e))
]

module _ (o : Outside) {S D : Type 0} (ops : StateOps S) (tries : TrieOps S) (db : StoreOps D)
    (contracts : Registry → List (ℕ × ℕ)) where
  process_checkpoints-heights :
      (cps : List Checkpoint) (n : Node S D)
      → heights (process_checkpoints o ops tries db cps n) ≡ heights n
  unfolding process_checkpoints
  process_checkpoints-heights cps n = ground arith

  -- The two ways in which `tryFinalize` ends.
  pub try_finalize-cases :
      (n : Node S D)
      → (try_finalize o ops tries db n ≡ n)
        ⊎ ((cp : Checkpoint) × ((h : ℕ) × ((n.last_checkpoint ≡ some cp)
                × ((n.root_to_height cp.state_root ≡ some h)
                    × ((n.finalized_height ≤ h)
                        × (try_finalize o ops tries db n ≡ finalize_at o ops tries db h cp n))))))
  unfolding try_finalize
  try_finalize-cases n = elim (Option-cases n.last_checkpoint) [
    | inl nothing ↦ inl (ground arith)
    | inr (cp, there) ↦ elim (Option-cases (n.root_to_height cp.state_root)) [
      | inl unknown ↦ inl (ground arith)
      | inr (h, known) ↦ elim (Bool-cases (ltb h n.finalized_height)) [
        | inl below ↦ inl (ground arith)
        | inr above ↦ inr (cp, (h, (there, (known, (ground arith, ground arith)))))
      ]
    ]
  ]

  finalize_at-At :
      {g l : ℕ} (h : ℕ) (cp : Checkpoint) (n : Node S D)
      → h ≤ l
      → At g l n
      → At g l (finalize_at o ops tries db h cp n)
  unfolding finalize_at persist_finalized
  finalize_at-At {g} {l} h cp n le b = elim (Bool-cases (ltb n.finalized_height h)) [
    | inl above ↦
        heights-At (finalize_at o ops tries db h cp n) {f = h} {m = n.root_to_height}
          (ground (arith, b.genesis, b.last)) le b.roots
    | inr same ↦ same-At n (finalize_at o ops tries db h cp n) (ground arith) b
  ]

  pub try_finalize-At : {g l : ℕ} (n : Node S D) → At g l n → At g l (try_finalize o ops tries db n)
  try_finalize-At {g} {l} n b = elim (try_finalize-cases n) [
    | inl same ↦ subst (At g l) (sym same) b
    | inr (cp, (h, (last, (known, (le, now))))) ↦
        subst (At g l) (sym now) (finalize_at-At h cp n (b.roots cp.state_root h known) b)
  ]

  process_block-height :
      (r : ScanResult) (e e' : Executor S) (block : Block) (rs : List Receipt)
      → process_block o.crypto ops o.sort_slice r.l1_height r.l1_block_hash r.payloads e
        ≡ some ((block, rs), e')
      → block.height ≡ r.l1_height
  unfolding process_block run_block
  process_block-height r e e' block rs eq = ground arith

  persist-heights :
      (block : Block) (rs : List Receipt) (n : Node S D)
      → heights (persist o ops tries db contracts block rs n) ≡ heights n
  unfolding persist
  persist-heights block rs n = elim (Option-cases n.store) [
    | inl nothing ↦ ground arith
    | inr (d, there) ↦ ground arith
  ]

  record_block-At :
      {g l : ℕ} (attested : Bool) (block : Block) (rs : List Receipt) (n : Node S D)
      → l ≤ block.height
      → At g l n
      → At g block.height (record_block o ops tries db contracts attested block rs n)
  unfolding record_block
  record_block-At {g} {l} attested block rs n le b = go attested
    where
      recorded : Node S D
      recorded = at_tip o ops tries db contracts block n

      kept : At g block.height (persist o ops tries db contracts block rs recorded)
      kept =
          heights-At (persist o ops tries db contracts block rs recorded) {f = n.finalized_height}
            (persist-heights block rs recorded
              ∙ ap (λ x. (x, (block.height, (n.finalized_height, recorded.root_to_height))))
                  b.genesis)
            (omega (arith, b.finalized, le))
            (set_map-bound n.root_to_height block.state_root block.height block.height
              (λ r h e. omega (arith, le, b.roots r h e)) (omega arith))

      go : (a : Bool) → At g block.height (record_block o ops tries db contracts a block rs n)
      go true = try_finalize-At (persist o ops tries db contracts block rs recorded) kept
      go false = kept

  -- How a step ends: at the height it was to reach, or with an error behind which the heights of the
  -- node are still in order.
  abbrev pub Ends : ℕ → ℕ → Step (Node S D) → Type 0
  Ends g l (done n) = At g l n
  Ends g l (failed e n) = At g n.last_height n
  Ends g l panicked = Unit {0}

  pub take_block-Ends :
      {g l : ℕ} (r : ScanResult) (n : Node S D)
      → l ≤ r.l1_height
      → At g l n
      → Ends g r.l1_height (take_block o ops tries db contracts r n)
  unfolding take_block
  take_block-Ends {g} {l} r n le b =
      let n₁ : Node S D = process_checkpoints o ops tries db r.checkpoints n in
      let ready : At g l n₁ = same-At n n₁ (process_checkpoints-heights r.checkpoints n) b in
      elim (Option-cases (
        process_block o.crypto ops o.sort_slice r.l1_height r.l1_block_hash r.payloads
          n₁.executor)) [
            | inl crashed ↦ subst (Ends g r.l1_height) {x = panicked} (ground (arith, crashed)) tt
            | inr (((block, rs), e), ran) ↦
                let height = process_block-height r n₁.executor e block rs ran in
                subst (Ends g r.l1_height)
                  {x = done (
                    record_block o ops tries db contracts (has_any r.checkpoints) block rs
                      (record n₁ { executor = e }))}
                  (ground (arith, ran))
                  (subst
                    (λ h. At g h (
                      record_block o ops tries db contracts (has_any r.checkpoints) block rs
                        (record n₁ { executor = e })))
                    height
                    (record_block-At (has_any r.checkpoints) block rs (record n₁ { executor = e })
                      (omega (arith, le, height))
                      (same-At n₁ (record n₁ { executor = e }) refl ready)))
          ]
