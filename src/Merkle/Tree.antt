-- ===== src/Merkle/Tree.antt =====
-- pkg/merkle/tree.go: `Get`, `Set`, `Delete`, `Flush` and `LoadRoot` on the nodes. Each recursion
-- is on fuel; `Get`, `Set` and `Delete` give it two rounds for each of the 256 bits, a level of
-- the tree and the load of a stored node, and two more.
use tylium.Prelude.{
  ℕ, zero, suc, ◌+◌, ◌-◌, ◌/◌, ◌%◌, ◌^◌, Bool, true, false, Option, none, some, List, ◌==◌, leb,
  if◌then◌else◌,
}
use tylium.Merkle.Node.{
  HashFunc, Node, empty, hash_node, leaf, branch, hash, serialize_node, deserialize_node, lazy_node,
  Result, ok, err, ◌>>=◌, missing_node, out_of_range,
}

-- The backend's `Get`: what is stored under a hash.
abbrev pub NodeStore : Type 0
NodeStore = ℕ → Option (List ℕ)

-- `(h[pos/8] >> (7 - pos%8)) & 1`: bit 0 is the most significant of the 256.
unfoldable pub get_bit : ℕ → ℕ → ℕ
get_bit h pos = h / 2 ^ (255 - pos) % 2

abbrev fuel : ℕ
fuel = 514

-- The branches of `resolve` for a stored node.
unfoldable pub resolve : NodeStore → ℕ → Result Node
resolve store h = elim (store h) [ none ↦ err missing_node | some bytes ↦ deserialize_node bytes ]

-- The child on the side of the bit, under a test that the bit is there.
unfoldable pub on_side : {A : Type 0} → ℕ → ℕ → (Bool → Result A) → Result A
on_side key depth go = elim (leb 256 depth) [
  | true ↦ err out_of_range
  | false ↦ go (get_bit key depth == 0)
]

module _ (store : NodeStore) where
  unfoldable pub get_at : ℕ → Node → ℕ → ℕ → Result (Option (List ℕ))
  get_at zero n key depth = err out_of_range
  get_at (suc f) n key depth = elim n [
    | empty ↦ ok none
    | hash_node h ↦ resolve store h >>= λ n'. get_at f n' key depth
    | leaf k v ↦ ok (if k == key then some v else none)
    | branch l r ↦
        on_side key depth λ left. elim left [
          | true ↦ get_at f l key (depth + 1)
          | false ↦ get_at f r key (depth + 1)
        ]
  ]

-- `branch.left = child` or `branch.right = child` on the side of the key's bit, on the two
-- children of a branch.
unfoldable pub into : ℕ → ℕ → (Node → Result Node) → Node × Node → Result (Node × Node)
unfolding on_side
into key depth go (l, r) =
    on_side key depth
      λ left. elim left [ true ↦ go l >>= λ c. ok (c, r) | false ↦ go r >>= λ c. ok (l, c) ]

abbrev pub branch_of : Node × Node → Node
branch_of (l, r) = branch l r

-- The tail of `delete` at a branch: a branch with one child that is a leaf becomes the leaf. A
-- child that is stored and not loaded is no leaf to this test.
unfoldable pub collapse : Node → Node → Node
collapse empty empty = empty
collapse empty (leaf k v) = leaf k v
collapse (leaf k v) empty = leaf k v
collapse l r = branch l r

module _ (store : NodeStore) where
  unfoldable pub set_at : ℕ → Node → ℕ → List ℕ → ℕ → Result Node
  unfolding into
  set_at zero n key value depth = err out_of_range
  set_at (suc f) n key value depth = elim n [
    | empty ↦ ok (leaf key value)
    | hash_node h ↦ resolve store h >>= λ n'. set_at f n' key value depth
    | leaf k v ↦ elim (k == key) [
      | true ↦ ok (leaf key value)
      | false ↦ into k depth (λ c. set_at f c k v (depth + 1)) (empty, empty) >>= λ p.
          into key depth (λ c. set_at f c key value (depth + 1)) p >>= λ q. ok (branch_of q)
    ]
    | branch l r ↦
        into key depth (λ c. set_at f c key value (depth + 1)) (l, r) >>= λ q. ok (branch_of q)
  ]

  unfoldable pub delete_at : ℕ → Node → ℕ → ℕ → Result Node
  unfolding into collapse
  delete_at zero n key depth = err out_of_range
  delete_at (suc f) n key depth = elim n [
    | empty ↦ ok empty
    | hash_node h ↦ resolve store h >>= λ n'. delete_at f n' key depth
    | leaf k v ↦ ok (if k == key then empty else leaf k v)
    | branch l r ↦
        into key depth (λ c. delete_at f c key (depth + 1)) (l, r) >>= λ q. ok (collapse q.0 q.1)
  ]

-- A tree: its root and the store behind it. `Get`, `Set` and `Delete`; where `Set` or `Delete`
-- fails the tree is as it was.
pub record Tree : Type 0 where
  pub root : Node
  pub store : NodeStore

unfoldable pub get : Tree → ℕ → Result (Option (List ℕ))
unfolding get_at
get t key = get_at t.store fuel t.root key 0

unfoldable pub set : Tree → ℕ → List ℕ → Result Tree
unfolding set_at
set t key value = set_at t.store fuel t.root key value 0 >>= λ n. ok (record t { root = n })

unfoldable pub delete : Tree → ℕ → Result Tree
unfolding delete_at
delete t key = delete_at t.store fuel t.root key 0 >>= λ n. ok (record t { root = n })

module _ (fn : HashFunc) where
  unfoldable pub root_hash : Tree → ℕ
  unfolding hash
  root_hash t = hash fn t.root

  unfoldable pub load_root : NodeStore → ℕ → Tree
  load_root store h = record { root = lazy_node h; store = store }

  -- `store.Put(h[:], data)`
  abbrev pub put : ℕ → Option (List ℕ) → NodeStore → NodeStore
  put h bytes store j = if h == j then bytes else store j

  -- `flush`: the children first, then the node under its hash.
  unfoldable pub flush_node : Node → NodeStore → NodeStore
  unfolding hash serialize_node
  flush_node empty store = store
  flush_node (hash_node h) store = store
  flush_node (leaf k v) store = put (hash fn (leaf k v)) (serialize_node fn (leaf k v)) store
  flush_node (branch l r) store =
      put (hash fn (branch l r)) (serialize_node fn (branch l r))
        (flush_node r (flush_node l store))

  unfoldable pub flush : Tree → Tree
  unfolding flush_node
  flush t = record t { store = flush_node t.root t.store }
