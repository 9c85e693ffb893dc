-- ===== src/Store/Distinct.antt =====
-- The keys of the store tell what they are the keys of: internal/store/store.go and
-- pkg/merkle/leveldb.go.
use tylium.Prelude.{
  ℕ, ◌^◌, ◌<◌, ◌≡◌, refl, sym, ap, ◌∙◌, Option, none, some, List, [], ◌∷◌, ◌==◌, length, take, drop,
  if◌then◌else◌, take-append, drop-append,
}
use mathlib.Core.Path.{ap₂}
use mathlib.Core.Option.{some-injective}
use tylium.Bytes.{be, from_be}
use tylium.Bytes.Laws.{from_be-be, length-be}
use tylium.Store.Keys.{
  Item, height, state_root, final_height, final_root, tx_count, state_node, storage_node, code,
  block, contract, receipts, tx_receipt, tx_index, l1_hash, key_of,
}

-- The ranges of the Go types of what is in a key.
abbrev pub FitsItem : Item → Type 0
FitsItem height = Unit {0}
FitsItem state_root = Unit {0}
FitsItem final_height = Unit {0}
FitsItem final_root = Unit {0}
FitsItem tx_count = Unit {0}
FitsItem (state_node h) = h < 256 ^ 32
FitsItem (code h) = h < 256 ^ 32
FitsItem (block n) = n < 256 ^ 8
FitsItem (contract id) = id < 256 ^ 8
FitsItem (receipts n) = n < 256 ^ 8
FitsItem (tx_receipt id) = id < 256 ^ 32
FitsItem (tx_index i) = i < 256 ^ 8
FitsItem (l1_hash n) = n < 256 ^ 8
FitsItem (storage_node a h) = (a < 256 ^ 20) × (h < 256 ^ 32)

-- The records with the prefix "m/".
meta_item : ℕ → ℕ → Option Item
meta_item first size =
    if first == 104
    then some height
    else if first == 115
    then some state_root
    else if first == 116
    then some tx_count
    else if size == 10
    then some final_height
    else some final_root

of_letter : ℕ → List ℕ → Option Item
of_letter letter rest =
    if letter == 115
    then some (state_node (from_be rest))
    else if letter == 99
    then some (code (from_be rest))
    else if letter == 98
    then some (block (from_be rest))
    else if letter == 107
    then some (contract (from_be rest))
    else if letter == 114
    then some (receipts (from_be rest))
    else if letter == 120
    then some (tx_receipt (from_be rest))
    else if letter == 105
    then some (tx_index (from_be rest))
    else if letter == 108
    then some (l1_hash (from_be rest))
    else if letter == 116
    then some (storage_node (from_be (take 20 rest)) (from_be (drop 20 rest)))
    else elim rest [ [] ↦ none | first ∷ more ↦ meta_item first (length more) ]

item_of : List ℕ → Option Item
item_of [] = none
item_of (letter ∷ []) = none
item_of (letter ∷ slash ∷ rest) = of_letter letter rest

item_of-key_of : (i : Item) → FitsItem i → item_of (key_of i) ≡ some i
unfolding item_of of_letter meta_item key_of
item_of-key_of height fits = refl
item_of-key_of state_root fits = refl
item_of-key_of final_height fits = refl
item_of-key_of final_root fits = refl
item_of-key_of tx_count fits = refl
item_of-key_of (state_node h) fits = ap (λ x. some (state_node x)) (from_be-be 32 h fits)
item_of-key_of (code h) fits = ap (λ x. some (code x)) (from_be-be 32 h fits)
item_of-key_of (block n) fits = ap (λ x. some (block x)) (from_be-be 8 n fits)
item_of-key_of (contract id) fits = ap (λ x. some (contract x)) (from_be-be 8 id fits)
item_of-key_of (receipts n) fits = ap (λ x. some (receipts x)) (from_be-be 8 n fits)
item_of-key_of (tx_receipt id) fits = ap (λ x. some (tx_receipt x)) (from_be-be 32 id fits)
item_of-key_of (tx_index i) fits = ap (λ x. some (tx_index x)) (from_be-be 8 i fits)
item_of-key_of (l1_hash n) fits = ap (λ x. some (l1_hash x)) (from_be-be 8 n fits)
item_of-key_of (storage_node a h) (small, fits) =
    ap₂ (λ x y. some (storage_node x y))
      (ap from_be (take-append 20 (be 20 a) (be 32 h) (length-be 20 a)) ∙ from_be-be 20 a small)
      (ap from_be (drop-append 20 (be 20 a) (be 32 h) (length-be 20 a)) ∙ from_be-be 32 h fits)

-- Two records of the store with the same key are the same record, whatever trie, code, block,
-- contract, receipt, transaction or counter they belong to, if what their keys are made of is in
-- the range of its type.
pub key_of-injective : (i j : Item) → FitsItem i → FitsItem j → key_of i ≡ key_of j → i ≡ j
key_of-injective i j fi fj e =
    some-injective _ _ (sym (item_of-key_of i fi) ∙ ap item_of e ∙ item_of-key_of j fj)
