-- ===== src/Node/Resync.antt =====
-- The heights of the node's state through a reorganisation and a whole `Sync`, of
-- internal/node/node.go.
use tylium.Prelude.{
  ℕ, zero, suc, ◌+◌, ◌-◌, ◌≤◌, ◌<◌, ◌≡◌, ◌⊎◌, inl, inr, refl, sym, ap, ◌∙◌, ◌||◌, Option, some,
  List, ◌==◌, ltb, leb, if◌then◌else◌, arith, Option-cases, Bool-cases,
}
use mathlib.Core.Path.{subst}
use tylium.Prelude.Words.{add64, sub64}
use tylium.Types.{is_zero}
use tylium.State.Ops.{StateOps}
use tylium.Scanner.Block.{BtcBlock, ScanResult, scan_block, scan_result}
use tylium.Executor.Settle.{Registry}
use tylium.Node.Base.{
  TrieOps, StoreOps, Outside, Node, Step, done, failed, ◌>>=◌, NodeError, no_l1_block, no_l1_hash,
}
use tylium.Node.Reorg.{
  take_block, reprocess_block, reprocess_from, rollback_to_height, handle_reorg,
  detect_and_handle_reorg, Fork, fork_at, no_fork, find_fork_point,
}
use tylium.Node.Forks.{IsFork, find_fork_point-IsFork}
use tylium.Node.Sync.{process_height, sync_from, sync}
use tylium.Node.Bounded.{At, Bounded, Ends, take_block-Ends}
use tylium.Node.Rollback.{bind-Ends, rollback-Ends}

module _ (o : Outside) {S D : Type 0} (ops : StateOps S) (tries : TrieOps S) (db : StoreOps D)
    (contracts : Registry → List (ℕ × ℕ)) where
  abbrev EndsAt : ℕ → ℕ → Step (Node S D) → Type 0
  EndsAt = Ends o ops tries db contracts

  Fork-cases : (x : Fork) → ((e : NodeError) × (x ≡ no_fork e)) ⊎ ((f : ℕ) × (x ≡ fork_at f))
  Fork-cases (no_fork e) = inl (e, refl)
  Fork-cases (fork_at f) = inr (f, refl)

  At-self : {g l : ℕ} (n : Node S D) → At g l n → At g n.last_height n
  At-self {g} n b = subst (λ k. At g k n) (sym b.last) b

  module _ (chain : ℕ → Option BtcBlock)
      (named : (h : ℕ) (block : BtcBlock) → chain h ≡ some block → block.height ≡ h) where
    scan-height :
        (height : ℕ) (r : ScanResult)
        → scan_block o.index chain height ≡ some r
        → r.l1_height ≡ height
    unfolding scan_block scan_result
    scan-height height r e = elim (Option-cases (chain height)) [
      | inl missing ↦ ground (arith, missing, e)
      | inr (block, shown) ↦ ground (arith, shown, e, named height block shown)
    ]

    reprocess_block-Ends :
        {g l : ℕ} (height : ℕ) (n : Node S D)
        → l ≤ height
        → At g l n
        → EndsAt g height (reprocess_block o ops tries db contracts chain height n)
    unfolding reprocess_block
    reprocess_block-Ends {g} {l} height n le b =
        elim (Option-cases (scan_block o.index chain height)) [
          | inl missing ↦
              subst (EndsAt g height) {x = failed (no_l1_block height) n} (ground (arith, missing))
                (At-self n b)
          | inr (r, scanned) ↦
              let at = scan-height height r scanned in
              subst (EndsAt g height) {x = take_block o ops tries db contracts r n}
                (ground (arith, scanned))
                (subst (λ h. EndsAt g h (take_block o ops tries db contracts r n)) at
                  (take_block-Ends o ops tries db contracts r n (omega (arith, le, at)) b))
        ]

    reprocess_from-Ends :
        {g : ℕ} (rounds height l : ℕ) (n : Node S D)
        → height ≡ suc l
        → l + rounds < 18446744073709551615
        → At g l n
        → EndsAt g (l + rounds) (reprocess_from o ops tries db contracts chain rounds height n)
    unfolding reprocess_from
    reprocess_from-Ends {g} zero height l n next small b =
        subst (λ k. At g k n) {x = l} (omega arith) b
    reprocess_from-Ends {g} (suc rounds) height l n next small b =
        bind-Ends o ops tries db contracts (l + suc rounds)
          (reprocess_block o ops tries db contracts chain height n)
          (reprocess_from o ops tries db contracts chain rounds (add64 height 1))
          (reprocess_block-Ends height n (omega (arith, next)) b)
          (λ n₁ b₁.
            subst
              (λ k.
                EndsAt g k
                  (reprocess_from o ops tries db contracts chain rounds (add64 height 1) n₁))
              {x = height + rounds} (omega (arith, next))
              (reprocess_from-Ends rounds (add64 height 1) height n₁ (omega (arith, next, small))
                (omega (arith, next, small)) b₁))

    fork-le :
        {g : ℕ} (d : D) (h f : ℕ) (x : Fork)
        → g ≤ h
        → IsFork o ops tries db contracts chain g d h x
        → x ≡ fork_at f
        → f ≤ h
    fork-le d h f (fork_at f') le (above, where_at, apart) e = elim where_at [
      | inl (under, agrees) ↦ ground (arith, e, under)
      | inr (same, low) ↦ absurd (omega (arith, le, low))
    ]
    fork-le d h f (no_fork why) le k e = ground (arith, e)

    handle_reorg-Ends :
        {g : ℕ} (r : ScanResult) (prev : ℕ) (d : D) (n : Node S D)
        → r.l1_height ≡ suc prev
        → prev < 18446744073709551615
        → 0 < g
        → g ≤ prev
        → At g prev n
        → EndsAt g prev (handle_reorg o ops tries db contracts chain r prev d n)
    unfolding handle_reorg
    handle_reorg-Ends {g} r prev d n next small pos le b =
        let search = find_fork_point o ops tries db contracts chain n.genesis_height d prev in
        elim (Fork-cases search) [
          | inl (e, lost) ↦
              subst (EndsAt g prev) {x = failed e n} (ground (arith, lost)) (At-self n b)
          | inr (f, found) ↦
              let low =
                fork-le d prev f (find_fork_point o ops tries db contracts chain g d prev) le
                  (find_fork_point-IsFork o ops tries db contracts chain g d prev
                    (omega (arith, small)) pos le)
                  (ap (λ k. find_fork_point o ops tries db contracts chain k d prev) (sym b.genesis)
                    ∙ found) in
              subst (EndsAt g prev)
                {x = rollback_to_height o ops tries db contracts f d n
                  >>= reprocess_from o ops tries db contracts chain (r.l1_height - (f + 1))
                      (add64 f 1)}
                (ground (arith, found))
                (bind-Ends o ops tries db contracts prev
                  (rollback_to_height o ops tries db contracts f d n)
                  (reprocess_from o ops tries db contracts chain (r.l1_height - (f + 1))
                    (add64 f 1))
                  (rollback-Ends o ops tries db contracts f d n (At-self n b))
                  (λ n₁ b₁.
                    subst
                      (λ k. EndsAt g k (
                        reprocess_from o ops tries db contracts chain (r.l1_height - (f + 1))
                          (add64 f 1) n₁))
                      {x = f + (r.l1_height - (f + 1))} (omega (arith, next, low))
                      (reprocess_from-Ends (r.l1_height - (f + 1)) (add64 f 1) f n₁
                        (omega (arith, low, small)) (omega (arith, low, small, next)) b₁)))
        ]

    detect-Ends :
        {g l : ℕ} (r : ScanResult) (n : Node S D)
        → r.l1_height ≡ suc l
        → l < 18446744073709551615
        → 0 < g
        → At g l n
        → EndsAt g l (detect_and_handle_reorg o ops tries db contracts chain r n)
    unfolding detect_and_handle_reorg
    detect-Ends {g} {l} r n next small pos b = elim (Option-cases n.store) [
      | inl memory ↦ subst (EndsAt g l) {x = done n} (ground (arith, memory)) b
      | inr (d, there) ↦ elim (Bool-cases (ltb (sub64 r.l1_height 1) n.genesis_height)) [
        | inl early ↦ subst (EndsAt g l) {x = done n} (ground (arith, there, early)) b
        | inr late ↦ elim (Option-cases (db.get_l1_hash (sub64 r.l1_height 1) d)) [
          | inl unread ↦
              subst (EndsAt g l) {x = failed no_l1_hash n} (ground (arith, there, late, unread))
                (At-self n b)
          | inr (stored, hash) ↦ elim (Bool-cases (is_zero stored || (stored == r.l1_prev_hash))) [
            | inl joined ↦
                subst (EndsAt g l) {x = done n} (ground (arith, there, late, hash, joined)) b
            | inr apart ↦
                let prev : sub64 r.l1_height 1 ≡ l = omega (arith, next, small) in
                subst (EndsAt g l)
                  {x = handle_reorg o ops tries db contracts chain r (sub64 r.l1_height 1) d n}
                  (ground (arith, there, late, hash, apart))
                  (subst (λ k. EndsAt g l (handle_reorg o ops tries db contracts chain r k d n))
                    (sym prev)
                    (handle_reorg-Ends r l d n next small pos
                      (ground (arith, late, prev, b.genesis)) b))
          ]
        ]
      ]
    ]

    process_height-Ends :
        {g l : ℕ} (height : ℕ) (n : Node S D)
        → height ≡ suc l
        → l < 18446744073709551615
        → 0 < g
        → At g l n
        → EndsAt g height (process_height o ops tries db contracts chain height n)
    unfolding process_height
    process_height-Ends {g} {l} height n next small pos b =
        elim (Option-cases (scan_block o.index chain height)) [
          | inl missing ↦
              subst (EndsAt g height) {x = failed (no_l1_block height) n} (ground (arith, missing))
                (At-self n b)
          | inr (r, scanned) ↦
              let at = scan-height height r scanned in
              subst (EndsAt g height)
                {x = detect_and_handle_reorg o ops tries db contracts chain r n
                  >>= take_block o ops tries db contracts r}
                (ground (arith, scanned))
                (bind-Ends o ops tries db contracts height
                  (detect_and_handle_reorg o ops tries db contracts chain r n)
                  (take_block o ops tries db contracts r) (detect-Ends r n (at ∙ next) small pos b)
                  (λ n₁ b₁.
                    subst (λ h. EndsAt g h (take_block o ops tries db contracts r n₁)) at
                      (take_block-Ends o ops tries db contracts r n₁ (omega (arith, at, next)) b₁)))
        ]

    sync_from-Ends :
        {g : ℕ} (rounds height l : ℕ) (n : Node S D)
        → height ≡ suc l
        → l + rounds < 18446744073709551615
        → 0 < g
        → At g l n
        → EndsAt g (l + rounds) (sync_from o ops tries db contracts chain rounds height n)
    unfolding sync_from
    sync_from-Ends {g} zero height l n next small pos b =
        subst (λ k. At g k n) {x = l} (omega arith) b
    sync_from-Ends {g} (suc rounds) height l n next small pos b =
        bind-Ends o ops tries db contracts (l + suc rounds)
          (process_height o ops tries db contracts chain height n)
          (sync_from o ops tries db contracts chain rounds (add64 height 1))
          (process_height-Ends height n next (omega (arith, small)) pos b)
          (λ n₁ b₁.
            subst
              (λ k.
                EndsAt g k (sync_from o ops tries db contracts chain rounds (add64 height 1) n₁))
              {x = height + rounds} (omega (arith, next))
              (sync_from-Ends rounds (add64 height 1) height n₁ (omega (arith, next, small))
                (omega (arith, next, small)) pos b₁))

    -- `Sync` on a node with no height above its last one ends with a node at the tip, or where it was
    -- if that is not below the tip; with an error; or with a panic. In the first two cases the node has
    -- no finalized height and no height of a root above its last height, whatever
    -- reorganisations were met. The client returns blocks at the heights it is asked for; the
    -- genesis height is above zero, and the tip below 2^64 - 1.
    pub sync-Ends :
        (tip : ℕ) (n : Node S D)
        → 0 < n.genesis_height
        → tip < 18446744073709551615
        → Bounded n
        → EndsAt n.genesis_height
            (if leb tip n.last_height then n.last_height else tip)
            (sync o ops tries db contracts chain (some tip) n)
    unfolding sync
    sync-Ends tip n pos small b = elim (Bool-cases (leb tip n.last_height)) [
      | inl there ↦
          subst (λ (q : ℕ × Step (Node S D)). EndsAt n.genesis_height q.0 q.1)
            {x = (n.last_height, done n)} (ground (arith, there)) b
      | inr short ↦
          let under : n.last_height ≤ tip = ground (arith, short) in
          subst (λ (q : ℕ × Step (Node S D)). EndsAt n.genesis_height q.0 q.1)
            {x = (
              n.last_height + (tip - n.last_height),
              sync_from o ops tries db contracts chain (tip - n.last_height) (add64 n.last_height 1)
                  n,
            )}
            (ground (arith, short))
            (sync_from-Ends (tip - n.last_height) (add64 n.last_height 1) n.last_height n
              (omega (arith, under, small)) (omega (arith, under, small)) pos b)
    ]
