-- ===== src/Merkle/Stored.antt =====
-- The stored form of a node, and reading it back.
use tylium.Prelude.{
  ℕ, ◌+◌, ◌-◌, ◌%◌, ◌^◌, ◌<◌, ◌≡◌, [], ◌∷◌, refl, sym, ap, ◌∙◌, false, true, some, List, ◌++◌, ◌==◌,
  ltb, length, take, take-append, arith,
}
use mathlib.Core.Path.{ap₂}
use mathlib.Core.List.{append-nil}
use tylium.Bytes.{be}
use tylium.Encoding.Fields.{read_at, read_at-be, slice}
use tylium.Merkle.Node.{
  HashFunc, leaf, branch, serialize_node, deserialize_node, branch_bytes, lazy_node, ok,
}

module _ (key : ℕ) (value : List ℕ) where
  stored_leaf : List ℕ
  stored_leaf = 0x00 ∷ (be 32 key ++ (be 4 (length value % 4294967296) ++ value))

  length-stored_leaf : length stored_leaf ≡ 37 + length value
  unfolding stored_leaf be
  length-stored_leaf = omega arith

  leaf_tag : read_at 0 1 stored_leaf ≡ 0
  unfolding stored_leaf
  leaf_tag = read_at-be 0 1 0 stored_leaf (unfold be in refl) (omega arith)

  leaf_key : key < 2 ^ 256 → read_at 1 32 stored_leaf ≡ key
  unfolding stored_leaf
  leaf_key fits = read_at-be 1 32 key stored_leaf (unfold be in refl) fits

  leaf_length : length value < 4294967296 → read_at 33 4 stored_leaf ≡ length value
  unfolding stored_leaf
  leaf_length small =
      read_at-be 33 4 (length value % 4294967296) stored_leaf (unfold be in refl) (omega arith)
      ∙ omega arith

  leaf_value : length value < 4294967296 → slice 37 (read_at 33 4 stored_leaf) stored_leaf ≡ value
  leaf_value small = ap (λ k. slice 37 k stored_leaf) (leaf_length small) ∙ whole
    where
      whole : slice 37 (length value) stored_leaf ≡ value
      whole =
          unfold stored_leaf be in
          (ap (take (length value)) (sym (append-nil value))
            ∙ take-append (length value) value [] refl)

  -- A leaf with a 256-bit key and a value below 2 ^ 32 bytes is read back from its stored form.
  pub deserialize_node-leaf :
      (fn : HashFunc) {bytes : List ℕ}
      → key < 2 ^ 256
      → length value < 4294967296
      → serialize_node fn (leaf key value) ≡ some bytes
      → deserialize_node bytes ≡ ok (leaf key value)
  unfolding serialize_node deserialize_node
  deserialize_node-leaf fn {bytes} fits small stored =
      ap deserialize_node same
      ∙ (rw (nonempty, tagged, long, whole)
          (ap₂ (λ k v. ok (leaf k v)) (leaf_key fits) (leaf_value small)))
    where
      same : bytes ≡ stored_leaf
      same = unfold stored_leaf in cc

      nonempty : ltb (length stored_leaf) 1 ≡ false
      nonempty = ground (arith, length-stored_leaf)

      tagged : (read_at 0 1 stored_leaf == 0) ≡ true
      tagged = ground (arith, leaf_tag)

      long : ltb (length stored_leaf) 37 ≡ false
      long = ground (arith, length-stored_leaf)

      whole : ltb ((length stored_leaf - 37) % 4294967296) (read_at 33 4 stored_leaf) ≡ false
      whole = ground (arith, length-stored_leaf, leaf_length)

module _ (left right : ℕ) (lfits : left < 2 ^ 256) (rfits : right < 2 ^ 256) where
  stored_branch : List ℕ
  stored_branch = branch_bytes left right

  -- A branch over two hashes is read back as a branch of unloaded children.
  pub deserialize_node-branch :
      deserialize_node (branch_bytes left right) ≡ ok (branch (lazy_node left) (lazy_node right))
  unfolding deserialize_node
  deserialize_node-branch =
      rw (nonempty, leafless, tagged, long)
        (ap₂ (λ l r. ok (branch (lazy_node l) (lazy_node r))) first second)
    where
      nonempty : ltb (length (branch_bytes left right)) 1 ≡ false
      nonempty = unfold be in (ground arith)

      tag : read_at 0 1 (branch_bytes left right) ≡ 1
      tag = read_at-be 0 1 1 (branch_bytes left right) (unfold be in refl) (omega arith)

      leafless : (read_at 0 1 (branch_bytes left right) == 0) ≡ false
      leafless = ground (arith, tag)

      tagged : (read_at 0 1 (branch_bytes left right) == 1) ≡ true
      tagged = ground (arith, tag)

      long : ltb (length (branch_bytes left right)) 65 ≡ false
      long = unfold be in (ground arith)

      first : read_at 1 32 (branch_bytes left right) ≡ left
      first = read_at-be 1 32 left (branch_bytes left right) (unfold be in refl) lfits

      second : read_at 33 32 (branch_bytes left right) ≡ right
      second = read_at-be 33 32 right (branch_bytes left right) (unfold be in refl) rfits
