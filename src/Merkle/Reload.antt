-- ===== src/Merkle/Reload.antt =====
-- A tree that is loaded from the store and the same tree in memory can part ways at a deletion:
-- `delete` takes a branch away above a lone leaf, and a leaf that is not loaded is no leaf to it.
use tylium.Prelude.{
  ℕ, suc, ◌+◌, leb, ◌^◌, ◌<◌, ◌≡◌, ◌≢◌, refl, sym, ◌∙◌, some, List, length, arith, false, ==_self,
  ==_ne,
}
use tylium.Merkle.Node.{
  HashFunc, Node, empty, hash_node, leaf, branch, hash, serialize_node, deserialize_node,
  leaf_bytes, branch_bytes, ok,
}
use tylium.Merkle.Tree.{
  NodeStore, Tree, get_bit, resolve, into, delete_at, delete, collapse, load_root, flush,
  flush_node, root_hash,
}
use tylium.Merkle.Stored.{deserialize_node-leaf, deserialize_node-branch}

resolve_stored :
    (store : NodeStore) (h : ℕ) (bytes : List ℕ) (n : Node)
    → store h ≡ some bytes
    → deserialize_node bytes ≡ ok n
    → resolve store h ≡ ok n
unfolding resolve
resolve_stored store h bytes n found read = rw (found, resolve) read

module _ (store : NodeStore) (f key depth : ℕ) where
  delete_left :
      (l r c : Node)
      → leb 256 depth ≡ false
      → get_bit key depth ≡ 0
      → delete_at store f l key (depth + 1) ≡ ok c
      → delete_at store (suc f) (branch l r) key depth ≡ ok (collapse c r)
  unfolding delete_at into
  delete_left l r c deep bit child = ground (arith)

  delete_stored :
      (h : ℕ) (n : Node)
      → resolve store h ≡ ok n
      → delete_at store (suc f) (hash_node h) key depth ≡ delete_at store f n key depth
  unfolding delete_at
  delete_stored h n e = rw e

  delete_leaf : (v : List ℕ) → delete_at store (suc f) (leaf key v) key depth ≡ ok empty
  unfolding delete_at
  delete_leaf v = rw (==_self key)

module _ (fn : HashFunc) (a b : ℕ) (va vb : List ℕ) (store : NodeStore) where
  abbrev pub hash_a : ℕ
  hash_a = fn (leaf_bytes a va)

  abbrev pub hash_b : ℕ
  hash_b = fn (leaf_bytes b vb)

  abbrev pub hash_ab : ℕ
  hash_ab = fn (branch_bytes hash_a hash_b)

  -- Two leaves below the root, and the same tree written to the store and loaded again.
  abbrev pub two_leaves : Tree
  two_leaves = record { root = branch (leaf a va) (leaf b vb); store = store }

  abbrev pub reloaded : Tree
  reloaded = load_root fn (flush fn two_leaves).store (root_hash fn two_leaves)

  -- The first key goes left, the data are in range, and the hashes that are stored or compared
  -- are different and not zero.
  pub record IsApart : Type 0 where
    pub goes_left : get_bit a 0 ≡ 0
    pub key_fits : a < 2 ^ 256
    pub value_fits : length va < 4294967296
    pub hash_a_fits : hash_a < 2 ^ 256
    pub hash_b_fits : hash_b < 2 ^ 256
    pub hash_a_set : hash_a ≢ 0
    pub hash_b_set : hash_b ≢ 0
    pub hash_ab_set : hash_ab ≢ 0
    pub hash_a_b : hash_a ≢ hash_b
    pub hash_a_ab : hash_a ≢ hash_ab
    pub leaf_branch : hash_b ≢ fn (branch_bytes 0 hash_b)

  module _ (apart : IsApart) where
    in_memory : delete two_leaves a ≡ ok (record two_leaves { root = leaf b vb })
    unfolding delete collapse
    in_memory = rw (
        delete_left store 513 a 0 (leaf a va) (leaf b vb) empty refl apart.goes_left
          (delete_leaf store 512 a 1 va))

    saved : NodeStore
    saved = (flush fn two_leaves).store

    saved_root : saved hash_ab ≡ some (branch_bytes hash_a hash_b)
    unfolding saved flush flush_node hash serialize_node
    saved_root = rw (==_self hash_ab)

    saved_a : saved hash_a ≡ serialize_node fn (leaf a va)
    unfolding saved flush flush_node hash
    saved_a = rw (
      ==_ne hash_ab hash_a (λ e. apart.hash_a_ab (sym e)),
      ==_ne hash_b hash_a (λ e. apart.hash_a_b (sym e)),
      ==_self hash_a,
    )

    resolve_root : resolve saved hash_ab ≡ ok (branch (hash_node hash_a) (hash_node hash_b))
    resolve_root = resolve_stored saved hash_ab (branch_bytes hash_a hash_b) _ saved_root (
        deserialize_node-branch hash_a hash_b apart.hash_a_fits apart.hash_b_fits
        ∙ (rw (==_ne hash_a 0 apart.hash_a_set, ==_ne hash_b 0 apart.hash_b_set)))

    resolve_a : resolve saved hash_a ≡ ok (leaf a va)
    unfolding serialize_node
    resolve_a =
        resolve_stored saved hash_a _ (leaf a va) saved_a
          (deserialize_node-leaf a va fn apart.key_fits apart.value_fits refl)

    from_store : delete reloaded a ≡ ok (record reloaded { root = branch empty (hash_node hash_b) })
    unfolding delete collapse load_root root_hash hash saved
    from_store = rw (
      ==_ne hash_ab 0 apart.hash_ab_set,
      delete_stored saved 513 a 0 hash_ab _ resolve_root,
      delete_left saved 512 a 0 (hash_node hash_a) (hash_node hash_b) empty refl apart.goes_left
          (delete_stored saved 511 a 1 hash_a _ resolve_a ∙ delete_leaf saved 510 a 1 va),
    )

    -- Where the keys part at the first bit and the hashes are as `IsApart` says, deleting the left
    -- one of two entries succeeds on the tree in memory and on the same tree
    -- written to the store and loaded again, and the two results have different root hashes.
    pub delete-reloaded :
        (u u' : Tree) × (delete two_leaves a ≡ ok u)
        × (delete reloaded a ≡ ok u')
        × (root_hash fn two_leaves ≡ root_hash fn reloaded)
        × (root_hash fn u ≢ root_hash fn u')
    unfolding root_hash hash load_root
    delete-reloaded = (
      record two_leaves { root = leaf b vb },
      record reloaded { root = branch empty (hash_node hash_b) },
      in_memory,
      from_store,
      (rw (==_ne hash_ab 0 apart.hash_ab_set)),
      apart.leaf_branch,
    )
