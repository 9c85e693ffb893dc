-- ===== src/Merkle/Proved.antt =====
-- The proofs of pkg/merkle/proof.go for the keys that a tree in memory has.
use tylium.Prelude.{
  ℕ, zero, suc, ◌+◌, ◌*◌, ◌^◌, ◌<◌, ◌≡◌, refl, ap, ◌∙◌, true, some, List, [], ◌∷◌, ◌==◌, inl, inr,
  arith, Bool-cases, ==→eq, ==_self,
}
use tylium.Merkle.Node.{HashFunc, Node, empty, hash_node, leaf, branch, hash, ok, ◌>>=◌}
use tylium.Merkle.Tree.{NodeStore, Tree, get, get_at, get_bit, on_side, root_hash}
use tylium.Merkle.Place.{find, IsSound, get_at-find}
use tylium.Merkle.Map.{Map, Holds}
use tylium.Merkle.Proof.{Proof, prove_at, prove, start_hash, walk, verify_proof}

module _ (fn : HashFunc) (store : NodeStore) (key : ℕ) where
  -- From a sound node down there is a proof with the value of the key, and if there is a value it
  -- leads back to the hash of the node.
  record IsProved (n : Node) (depth f : ℕ) : Type 0 where
    siblings : List ℕ
    proved : prove_at fn store f n key depth ≡ ok (find n depth key, siblings)
    leads :
        (v : List ℕ)
        → find n depth key ≡ some v
        → walk fn key siblings depth (start_hash fn key (some v)) ≡ ok (hash fn n)

  prove_at-IsProved :
      (f r depth p : ℕ) (n : Node) → r < f → depth + r ≡ 256 → IsSound n r p → IsProved n depth f
  unfolding prove_at find walk start_hash hash on_side
  prove_at-IsProved zero r depth p n enough at s = absurd (omega arith)
  prove_at-IsProved (suc f) r depth p empty enough at s = record {
    siblings = [];
    proved = refl;
    leads = λ v e. ground (arith, e);
  }
  prove_at-IsProved (suc f) r depth p (hash_node h) enough at s = absurd s
  prove_at-IsProved (suc f) r depth p (leaf k x) enough at s = record {
    siblings = [];
    proved = refl;
    leads = λ v e. elim (Bool-cases (k == key)) [
      | inl same ↦ ground (arith, same, e, ==→eq k key same)
      | inr other ↦ ground (arith, other, e)
    ];
  }
  prove_at-IsProved (suc f) zero depth p (branch a b) enough at s = absurd s
  prove_at-IsProved (suc f) (suc r) depth p (branch a b) enough at (sa, sb, few) =
      elim (Bool-cases (get_bit key depth == 0)) [
        | inl left ↦
            let below =
              prove_at-IsProved f r (depth + 1) (2 * p) a (omega (arith, enough))
                (omega (arith, at)) sa in
            record {
              siblings = hash fn b ∷ below.siblings;
              proved = ground (arith, left, at, below.proved);
              leads = λ v e. ground (arith, left, at, below.leads v (ground (arith, left, e)));
            }
        | inr right ↦
            let below =
              prove_at-IsProved f r (depth + 1) (2 * p + 1) b (omega (arith, enough))
                (omega (arith, at)) sb in
            record {
              siblings = hash fn a ∷ below.siblings;
              proved = ground (arith, right, at, below.proved);
              leads = λ v e. ground (arith, right, at, below.leads v (ground (arith, right, e)));
            }
      ]

module _ (fn : HashFunc) where
  found_at :
      (t : Tree) (m : Map)
      → Holds t m
      → (key : ℕ) → key < 2 ^ 256
      → (v : List ℕ) → m key ≡ some v
      → find t.root 0 key ≡ some v
  unfolding get
  found_at t m h key small v there =
      let read : get_at t.store 514 t.root key 0 ≡ ok (m key) = h.reads key small in
      let way = get_at-find t.store 514 256 0 0 t.root key (omega arith) (omega arith) h.placed in
      ground (arith, read, way, there)

  proof_of :
      (t : Tree) (key : ℕ) (v : List ℕ) (p : IsProved fn t.store key t.root 0 514)
      → find t.root 0 key ≡ some v
      → (proof : Proof) × ((prove fn t key ≡ ok proof)
          × ((proof.key ≡ key)
              × ((proof.value ≡ some v) × (verify_proof fn (root_hash fn t) proof ≡ ok true))))
  unfolding prove verify_proof root_hash
  proof_of t key v p here = (
    record { key = key; value = some v; siblings = p.siblings },
    (
      ap (λ x. x >>= λ q. ok (record { key = key; value = q.0; siblings = q.1 }))
          (p.proved ∙ ap (λ z. ok (z, p.siblings)) here),
      (
        refl,
        (
          refl,
          ap (λ x. x >>= λ current. ok (current == hash fn t.root)) (p.leads v here)
              ∙ ap ok (==_self (hash fn t.root)),
        ),
      ),
    ),
  )

  -- A tree in memory that holds a map proves each of its entries: for a 256-bit key with a value,
  -- `Prove` gives a proof of that key and value, and `VerifyProof` accepts it for the root of the tree.
  pub prove-verify_proof :
      (t : Tree) (m : Map)
      → Holds t m
      → (key : ℕ) → key < 2 ^ 256
      → (v : List ℕ) → m key ≡ some v
      → (proof : Proof) × ((prove fn t key ≡ ok proof)
          × ((proof.key ≡ key)
              × ((proof.value ≡ some v) × (verify_proof fn (root_hash fn t) proof ≡ ok true))))
  prove-verify_proof t m h key small v there =
      proof_of t key v
        (prove_at-IsProved fn t.store key 514 256 0 0 t.root (omega arith) (omega arith) h.placed)
        (found_at t m h key small v there)
