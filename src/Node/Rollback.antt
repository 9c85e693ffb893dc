-- ===== src/Node/Rollback.antt =====
-- The heights of the node's state behind a rollback, of internal/node/node.go.
use tylium.Prelude.{
  ℕ, zero, suc, ◌+◌, ◌-◌, ◌≤◌, ◌≡◌, ◌⊎◌, inl, inr, refl, sym, Option, none, some, List, ◌==◌, ltb,
  arith, ==→eq, Option-cases, Bool-cases,
}
use mathlib.Core.Path.{subst}
use tylium.Prelude.Words.{add64}
use tylium.State.Ops.{StateOps}
use tylium.State.Ledger.{set_map}
use tylium.Executor.Settle.{Registry}
use tylium.Executor.Block.{Block}
use tylium.Node.Base.{
  TrieOps, StoreOps, Outside, Node, Step, done, failed, panicked, ◌>>=◌, no_block_data, bad_block,
}
use tylium.Node.Finality.{persist_finalized}
use tylium.Node.Reorg.{
  rollback_to_height, reset_to_block, reset_to_genesis, cleaned, roots_from, stored_block,
}
use tylium.Node.Bounded.{At, heights-At, same-At, Ends, set_map-bound}

module _ (o : Outside) {S D : Type 0} (ops : StateOps S) (tries : TrieOps S) (db : StoreOps D)
    (contracts : Registry → List (ℕ × ℕ)) where
  abbrev pub EndsAt : ℕ → ℕ → Step (Node S D) → Type 0
  EndsAt = Ends o ops tries db contracts

  pub bind-Ends :
      {g k : ℕ} (l : ℕ) (s : Step (Node S D)) (f : Node S D → Step (Node S D))
      → EndsAt g k s
      → ((n : Node S D) → At g k n → EndsAt g l (f n))
      → EndsAt g l (s >>= f)
  bind-Ends l (done n) f h next = next n h
  bind-Ends l (failed e n) f h next = h
  bind-Ends l panicked f h next = tt

  next_height : (h rounds top : ℕ) → h + suc rounds ≤ suc top → add64 h 1 + rounds ≤ suc top
  next_height h rounds top fits = omega (arith, fits)

  roots_from-bound :
      (rounds h top : ℕ) (d : D) (m : ℕ → Option ℕ)
      → (rounds ≡ 0) ⊎ (h + rounds ≤ suc top)
      → ((r k : ℕ) → m r ≡ some k → k ≤ top)
      → (r k : ℕ) → roots_from o ops tries db contracts rounds h d m r ≡ some k
      → k ≤ top
  unfolding roots_from
  roots_from-bound zero h top d m fits bound = bound
  roots_from-bound (suc rounds) h top d m fits bound =
      elim (Option-cases (stored_block o ops tries db contracts h d)) [
        | inl missing ↦
            subst (λ (m' : ℕ → Option ℕ). (r k : ℕ) → m' r ≡ some k → k ≤ top)
              {x = roots_from o ops tries db contracts rounds (add64 h 1) d m}
              (ground (arith, missing))
              (roots_from-bound rounds (add64 h 1) top d m (inr (next_height h rounds top fits'))
                bound)
        | inr (b, there) ↦
            subst (λ (m' : ℕ → Option ℕ). (r k : ℕ) → m' r ≡ some k → k ≤ top)
              {x = roots_from o ops tries db contracts rounds (add64 h 1) d
                (set_map b.state_root (some h) m)}
              (ground (arith, there))
              (roots_from-bound rounds (add64 h 1) top d (set_map b.state_root (some h) m)
                (inr (next_height h rounds top fits'))
                (set_map-bound m b.state_root h top bound (omega (arith, fits'))))
      ]
    where
      fits' : h + suc rounds ≤ suc top
      fits' = ground (arith, fits)

  genesis-At :
      (n : Node S D)
      → At n.genesis_height n.genesis_height (reset_to_genesis o ops tries db contracts n)
  unfolding reset_to_genesis persist_finalized
  genesis-At n = elim (Bool-cases (ltb n.genesis_height n.finalized_height)) [
    | inl past ↦
        heights-At (reset_to_genesis o ops tries db contracts n) {f = 0} {m = λ r. none}
          (ground (arith, past)) (omega arith) (λ r h e. ground (arith, e))
    | inr kept ↦
        heights-At (reset_to_genesis o ops tries db contracts n) {f = n.finalized_height}
          {m = λ r. none} (ground (arith, kept)) (ground (arith, kept)) (λ r h e. ground (arith, e))
  ]

  block-At :
      (height : ℕ) (block : Block) (d : D) (n : Node S D)
      → At n.genesis_height height (reset_to_block o ops tries db contracts height block d n)
  unfolding reset_to_block persist_finalized
  block-At height block d n = elim (Bool-cases (ltb height n.finalized_height)) [
    | inl past ↦
        heights-At (reset_to_block o ops tries db contracts height block d n) {f = height}
          {m = rebuilt} (ground (arith, past)) (omega arith) bound
    | inr kept ↦
        heights-At (reset_to_block o ops tries db contracts height block d n)
          {f = n.finalized_height} {m = rebuilt} (ground (arith, kept)) (ground (arith, kept)) bound
  ]
    where
      fits :
          ((height - n.genesis_height) ≡ 0)
          ⊎ (add64 n.genesis_height 1 + (height - n.genesis_height) ≤ suc height)
      fits = elim (Bool-cases (ltb n.genesis_height height)) [
        | inl below ↦ inr (ground (arith, below))
        | inr above ↦ inl (ground (arith, above))
      ]

      rebuilt : ℕ → Option ℕ
      rebuilt =
          roots_from o ops tries db contracts (height - n.genesis_height) (add64 n.genesis_height 1)
            d (λ r. none)

      bound : (r k : ℕ) → rebuilt r ≡ some k → k ≤ height
      bound =
          roots_from-bound (height - n.genesis_height) (add64 n.genesis_height 1) height d
            (λ r. none) fits (λ r h e. ground (arith, e))

  pub rollback-Ends :
      {g : ℕ} (height : ℕ) (d : D) (n : Node S D)
      → At g n.last_height n
      → EndsAt g height (rollback_to_height o ops tries db contracts height d n)
  unfolding rollback_to_height cleaned
  rollback-Ends {g} height d n b = elim (Bool-cases (height == n.genesis_height)) [
    | inl at_genesis ↦
        let at : height ≡ n.genesis_height = ==→eq height n.genesis_height at_genesis in
        subst (EndsAt g height)
          {x = done
            (cleaned o ops tries db contracts height (reset_to_genesis o ops tries db contracts n))}
          (ground (arith, at_genesis))
          (same-At (reset_to_genesis o ops tries db contracts n)
            (cleaned o ops tries db contracts height (reset_to_genesis o ops tries db contracts n))
            refl
            (subst (λ k. At g k (reset_to_genesis o ops tries db contracts n)) (sym at)
              (subst (λ k. At k n.genesis_height (reset_to_genesis o ops tries db contracts n))
                b.genesis (genesis-At n))))
    | inr past ↦ elim (Option-cases (db.get_block height d)) [
      | inl unread ↦
          subst (EndsAt g height) {x = failed (no_block_data height) n}
            (ground (arith, past, unread)) b
      | inr (none, e) ↦
          subst (EndsAt g height) {x = failed (no_block_data height) n} (ground (arith, past, e)) b
      | inr (some bytes, e) ↦ elim (Option-cases (o.unmarshal_block bytes)) [
        | inl bad ↦
            subst (EndsAt g height) {x = failed (bad_block height) n} (ground (arith, past, e, bad))
              b
        | inr (block, good) ↦
            subst (EndsAt g height)
              {x = done (
                cleaned o ops tries db contracts height
                  (reset_to_block o ops tries db contracts height block d n))}
              (ground (arith, past, e, good))
              (same-At (reset_to_block o ops tries db contracts height block d n)
                (cleaned o ops tries db contracts height
                  (reset_to_block o ops tries db contracts height block d n))
                refl
                (subst (λ k. At k height (reset_to_block o ops tries db contracts height block d n))
                  b.genesis (block-At height block d n)))
      ]
    ]
  ]
