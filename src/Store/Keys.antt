-- ===== src/Store/Keys.antt =====
-- internal/store/store.go and pkg/merkle/leveldb.go: the keys.
use tylium.Prelude.{ℕ, List, [], ◌∷◌, ◌++◌}
use tylium.Bytes.{be}

-- What has a key of its own.
pub data Item : Type 0 where
  height state_root final_height final_root tx_count : Item
  state_node code block contract receipts tx_receipt tx_index l1_hash : ℕ → Item
  storage_node : ℕ → ℕ → Item

-- "height", "stateroot", "finalheight", "finalroot" and "txcount"
abbrev meta_height : List ℕ
meta_height = 104 ∷ 101 ∷ 105 ∷ 103 ∷ 104 ∷ 116 ∷ []

abbrev meta_state_root : List ℕ
meta_state_root = 115 ∷ 116 ∷ 97 ∷ 116 ∷ 101 ∷ 114 ∷ 111 ∷ 111 ∷ 116 ∷ []

abbrev meta_final_height : List ℕ
meta_final_height = 102 ∷ 105 ∷ 110 ∷ 97 ∷ 108 ∷ 104 ∷ 101 ∷ 105 ∷ 103 ∷ 104 ∷ 116 ∷ []

abbrev meta_final_root : List ℕ
meta_final_root = 102 ∷ 105 ∷ 110 ∷ 97 ∷ 108 ∷ 114 ∷ 111 ∷ 111 ∷ 116 ∷ []

abbrev meta_tx_count : List ℕ
meta_tx_count = 116 ∷ 120 ∷ 99 ∷ 111 ∷ 117 ∷ 110 ∷ 116 ∷ []

-- The letter of a prefix, and the slash.
abbrev pub prefixed : ℕ → List ℕ → List ℕ
prefixed letter rest = letter ∷ 47 ∷ rest

-- "s/", "t/", "c/", "m/", "b/", "r/", "k/", "x/", "i/" and "l/"
unfoldable pub key_of : Item → List ℕ
key_of height = prefixed 109 meta_height
key_of state_root = prefixed 109 meta_state_root
key_of final_height = prefixed 109 meta_final_height
key_of final_root = prefixed 109 meta_final_root
key_of tx_count = prefixed 109 meta_tx_count
key_of (state_node h) = prefixed 115 (be 32 h)
key_of (code h) = prefixed 99 (be 32 h)
key_of (block n) = prefixed 98 (be 8 n)
key_of (contract id) = prefixed 107 (be 8 id)
key_of (receipts n) = prefixed 114 (be 8 n)
key_of (tx_receipt id) = prefixed 120 (be 32 id)
key_of (tx_index i) = prefixed 105 (be 8 i)
key_of (l1_hash n) = prefixed 108 (be 8 n)
key_of (storage_node a h) = prefixed 116 (be 20 a ++ be 32 h)
