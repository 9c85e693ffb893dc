-- ===== src/Merkle/Update/Set.antt =====
-- `Set` on a sound node.
use tylium.Prelude.{
  ℕ, zero, suc, ◌+◌, ◌≤◌, ◌<◌, ◌≡◌, ◌≢◌, refl, true, false, some, List, ◌==◌, arith, Bool-cases,
  inl, inr,
}
use tylium.Merkle.Node.{Node, empty, hash_node, leaf, branch}
use tylium.Merkle.Tree.{NodeStore, into, set_at}
use tylium.Merkle.Place.{top, find, size, IsSound}
use tylium.Merkle.Update.Branch.{Updated, UpdatedPair, into-UpdatedPair}

module _ (store : NodeStore) (value : List ℕ) where
  set_empty :
      (f r p depth key : ℕ)
      → top key r ≡ p
      → Updated empty r p depth key (some value) (set_at store (suc f) empty key value depth)
  unfolding set_at find size
  set_empty f r p depth key here = record {
    node = leaf key value;
    succeeds = refl;
    sound = here;
    finds = λ j h. refl;
    sizes = omega arith;
  }

  set_same :
      (f r p depth key k : ℕ) (v : List ℕ)
      → top key r ≡ p
      → (k == key) ≡ true
      → Updated
          (leaf k v)
          r
          p
          depth
          key
          (some value)
          (set_at store (suc f) (leaf k v) key value depth)
  unfolding set_at find size
  set_same f r p depth key k v here same = record {
    node = leaf key value;
    succeeds = ground arith;
    sound = here;
    finds = λ j h. ground arith;
    sizes = ground arith;
  }

  set_branch :
      (f b p depth key : ℕ) (l r : Node)
      → 2 ≤ size l + size r
      → UpdatedPair l r b p depth key
          (some value)
          (into key depth (λ c. set_at store f c key value (depth + 1)) (l, r))
      → Updated
          (branch l r)
          (suc b)
          p
          depth
          key
          (some value)
          (set_at store (suc f) (branch l r) key value depth)
  unfolding set_at size
  set_branch f b p depth key l r two u = record {
    node = branch u.left u.right;
    succeeds = ground (arith, u.succeeds);
    sound = (u.sound_left, u.sound_right, ground (arith, u.sizes));
    finds = u.finds;
    sizes = u.sizes;
  }

  -- Two leaves below a new branch.
  set_split :
      (f b p depth key k : ℕ) (v : List ℕ)
      → (k == key) ≡ false
      → top key (suc b) ≡ p
      → (first : UpdatedPair empty empty b p depth k
          (some v)
          (into k depth (λ c. set_at store f c k v (depth + 1)) (empty, empty)))
      → UpdatedPair first.left first.right b p depth key
          (some value)
          (into key depth (λ c. set_at store f c key value (depth + 1)) (first.left, first.right))
      → Updated
          (leaf k v)
          (suc b)
          p
          depth
          key
          (some value)
          (set_at store (suc f) (leaf k v) key value depth)
  unfolding set_at size find
  set_split f b p depth key k v other above first u = record {
    node = branch u.left u.right;
    succeeds = ground (arith, first.succeeds, u.succeeds);
    sound =
        (u.sound_left, u.sound_right, ground (arith, u.sizes, first.sizes, first.finds key above));
    finds = λ j h. ground (arith, u.finds j h, first.finds j h);
    sizes = ground (arith, u.sizes, first.sizes, first.finds key above);
  }

-- A key of 256 bits that is led to where another stands with no bit left is that key.
last_bit : (k key p : ℕ) → top k 0 ≡ p → top key 0 ≡ p → (k == key) ≢ false
last_bit k key p e e' h = ground arith

pub set_at-Updated :
    (store : NodeStore) (value : List ℕ) (f r p depth key : ℕ) (n : Node)
    → r + 1 < f
    → depth + r ≡ 256
    → top key r ≡ p
    → IsSound n r p
    → Updated n r p depth key (some value) (set_at store f n key value depth)
set_at-Updated store value zero r p depth key n enough at above s = absurd (omega arith)
set_at-Updated store value (suc f) r p depth key empty enough at above s =
    set_empty store value f r p depth key above
set_at-Updated store value (suc f) r p depth key (hash_node h) enough at above s = absurd s
set_at-Updated store value (suc f) zero p depth key (leaf k v) enough at above s =
    elim (Bool-cases (k == key)) [
      | inl same ↦ set_same store value f 0 p depth key k v above same
      | inr other ↦ absurd (last_bit k key p s above other)
    ]
set_at-Updated store value (suc f) (suc b) p depth key (leaf k v) enough at above s =
    let first =
      into-UpdatedPair empty empty b p depth k (some v) (λ c. set_at store f c k v (depth + 1)) at s
        tt tt
        (λ n q s' here.
          set_at-Updated store v f b q (depth + 1) k n (omega arith) (omega arith) here s') in
    elim (Bool-cases (k == key)) [
      | inl same ↦ set_same store value f (suc b) p depth key k v above same
      | inr other ↦ set_split store value f b p depth key k v other above first (
          into-UpdatedPair first.left first.right b p depth key (some value)
            (λ c. set_at store f c key value (depth + 1)) at above first.sound_left
            first.sound_right
            (λ n q s' here.
              set_at-Updated store value f b q (depth + 1) key n (omega arith) (omega arith) here
                s'))
    ]
set_at-Updated store value (suc f) zero p depth key (branch a c) enough at above s = absurd s
set_at-Updated store value (suc f) (suc b) p depth key (branch a c) enough at above (sa, sc, two) =
    set_branch store value f b p depth key a c two (
      into-UpdatedPair a c b p depth key (some value) (λ c. set_at store f c key value (depth + 1))
        at above sa sc
        (λ n q s here.
          set_at-Updated store value f b q (depth + 1) key n (omega arith) (omega arith) here s))
