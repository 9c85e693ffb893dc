-- ===== src/Mempool.antt =====
-- internal/mempool/pool.go: the transactions that are waiting, and their order in a block.
use tylium.Prelude.{ℕ, Bool, List, [], ◌∷◌, ◌++◌, length}
use tylium.Types.{Transaction}
use tylium.Types.Order.{tx_less}

pub record Pool : Type 0 where
  pub txs : List Transaction

abbrev pub new : Pool
new = record { txs = [] }

abbrev pub add : Transaction → Pool → Pool
add tx p = record { txs = p.txs ++ (tx ∷ []) }

-- `sort.Slice` is the Go library's, a parameter, as is SHA-256.
abbrev pub ordered :
    ((Transaction → Transaction → Bool) → List Transaction → List Transaction)
    → (List ℕ → ℕ)
    → Pool
    → List Transaction
ordered sort_slice sha256 p = sort_slice (tx_less sha256) p.txs

abbrev pub len : Pool → ℕ
len p = length p.txs

abbrev pub clear : Pool → Pool
clear p = record { txs = [] }
