-- ===== src/Merkle/Node.antt =====
-- pkg/merkle/node.go and store.go: nodes, their hashes and their stored form.
use tylium.Prelude.{
  ℕ, ◌-◌, ◌%◌, Option, none, some, List, ◌∷◌, ◌++◌, length, ltb, ◌==◌, if◌then◌else◌,
}
use tylium.Bytes.{be}
use tylium.Encoding.Fields.{slice, read_at}

-- The hash function is a field of the tree there, SHA-256 by default: a parameter here.
abbrev pub HashFunc : Type 0
HashFunc = List ℕ → ℕ

-- A `hash_node` stands for a node that is in the store and not loaded yet.
pub data Node : Type 0 where
  empty : Node
  hash_node : ℕ → Node
  leaf : ℕ → List ℕ → Node
  branch : Node → Node → Node

abbrev pub leaf_bytes : ℕ → List ℕ → List ℕ
leaf_bytes key value = 0x00 ∷ (be 32 key ++ value)

abbrev pub branch_bytes : ℕ → ℕ → List ℕ
branch_bytes left right = 0x01 ∷ (be 32 left ++ be 32 right)

unfoldable pub hash : HashFunc → Node → ℕ
hash fn empty = 0
hash fn (hash_node h) = h
hash fn (leaf key value) = fn (leaf_bytes key value)
hash fn (branch left right) = fn (branch_bytes (hash fn left) (hash fn right))

-- `none` is the nil of the default case, which `Flush` does not reach.
unfoldable pub serialize_node : HashFunc → Node → Option (List ℕ)
serialize_node fn (leaf key value) =
    some (0x00 ∷ (be 32 key ++ (be 4 (length value % 4294967296) ++ value)))
serialize_node fn (branch left right) = some (branch_bytes (hash fn left) (hash fn right))
serialize_node fn _ = none

-- A zero hash is the empty subtree.
abbrev pub lazy_node : ℕ → Node
lazy_node h = if h == 0 then empty else hash_node h

-- `bad_node` stands for the errors of `deserializeNode`, `missing_node` for those of reading the
-- store, and `out_of_range` for the run-time panic of `getBit` beyond the last bit.
pub data TreeError : Type 0 where
  bad_node missing_node out_of_range : TreeError

pub data Result {ℓ} (A : Type ℓ) : Type ℓ where
  ok : A → Result A
  err : TreeError → Result A

infixl 5 ◌>>=◌
abbrev pub ◌>>=◌ {ℓ κ} : {A : Type ℓ} {B : Type κ} → Result A → (A → Result B) → Result B
ok a >>= f = f a
err e >>= f = err e

unfoldable pub deserialize_node : List ℕ → Result Node
deserialize_node d =
    if ltb (length d) 1
    then err bad_node
    else if read_at 0 1 d == 0x00
    then (if ltb (length d) 37
        then err bad_node
        else if ltb ((length d - 37) % 4294967296) (read_at 33 4 d)
        then err bad_node
        else ok (leaf (read_at 1 32 d) (slice 37 (read_at 33 4 d) d)))
    else if read_at 0 1 d == 0x01
    then (if ltb (length d) 65
        then err bad_node
        else ok (branch (lazy_node (read_at 1 32 d)) (lazy_node (read_at 33 32 d))))
    else err bad_node
