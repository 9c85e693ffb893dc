-- ===== src/Merkle/Proof.antt =====
-- pkg/merkle/proof.go: the siblings on the way to a key, and checking them against a root.
use tylium.Prelude.{
  ℕ, zero, suc, ◌+◌, Bool, true, false, Option, none, some, List, [], ◌∷◌, ◌==◌, if◌then◌else◌,
}
use tylium.Merkle.Node.{
  HashFunc, Node, empty, hash_node, leaf, branch, hash, leaf_bytes, branch_bytes, Result, ok, err,
  out_of_range, ◌>>=◌,
}
use tylium.Merkle.Tree.{NodeStore, Tree, resolve, on_side}

-- A value of `none` is nil, that of a proof of exclusion.
pub record Proof : Type 0 where
  pub key : ℕ
  pub value : Option (List ℕ)
  pub siblings : List ℕ

module _ (fn : HashFunc) where
  -- The value and the siblings from a node down. An error of the store ends the way.
  unfoldable pub prove_at : NodeStore → ℕ → Node → ℕ → ℕ → Result (Option (List ℕ) × List ℕ)
  unfolding hash
  prove_at store zero n key depth = err out_of_range
  prove_at store (suc f) n key depth = elim n [
    | empty ↦ ok (none, [])
    | hash_node h ↦ elim (resolve store h) [
      | err e ↦ ok (none, [])
      | ok n' ↦ prove_at store f n' key depth
    ]
    | leaf k v ↦ ok (if k == key then some v else none, [])
    | branch l r ↦ on_side key depth λ left. elim left [
      | true ↦ prove_at store f l key (depth + 1) >>= λ p. ok (p.0, hash fn r ∷ p.1)
      | false ↦ prove_at store f r key (depth + 1) >>= λ p. ok (p.0, hash fn l ∷ p.1)
    ]
  ]

  unfoldable pub prove : Tree → ℕ → Result Proof
  unfolding prove_at
  prove t key = prove_at t.store 514 t.root key 0 >>= λ p.
      ok (record { key = key; value = p.0; siblings = p.1 })

  -- What the loop starts from.
  unfoldable pub start_hash : ℕ → Option (List ℕ) → ℕ
  start_hash key none = 0
  start_hash key (some v) = fn (leaf_bytes key v)

  -- The loop, from the last sibling to the first.
  unfoldable pub walk : ℕ → List ℕ → ℕ → ℕ → Result ℕ
  walk key [] depth current = ok current
  walk key (s ∷ ss) depth current = walk key ss (depth + 1) current >>= λ below.
      on_side key depth
        λ left. ok (fn (if left then branch_bytes below s else branch_bytes s below))

  -- An error is the panic of a bit that is out of range.
  unfoldable pub verify_proof : ℕ → Proof → Result Bool
  unfolding walk start_hash
  verify_proof root p =
      walk p.key p.siblings 0 (start_hash p.key p.value) >>= λ current. ok (current == root)
