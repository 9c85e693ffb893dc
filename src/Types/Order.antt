-- ===== src/Types/Order.antt =====
-- pkg/types/transaction.go: the identifiers of a transaction and the order of a block.
use tylium.Prelude.{ℕ, Bool, List, ◌∷◌, ◌++◌, ◌==◌, ltb, if◌then◌else◌}
use tylium.Bytes.{be}
use tylium.Types.Records.{Transaction}

-- SHA-256 is crypto/sha256's, a parameter here: a function from bytes to a number below 2 ^ 256.
module _ (sha256 : List ℕ → ℕ) where
  -- `DoubleSha256`
  unfoldable pub double_sha256 : List ℕ → ℕ
  double_sha256 bytes = sha256 (be 32 (sha256 bytes))

  -- The bytes behind `TxID`: neither the sender nor the signature is among them.
  unfoldable pub tx_id : Transaction → ℕ
  unfolding double_sha256
  tx_id tx = double_sha256 (
      tx.version
      ∷ (be 8 tx.nonce
          ++ (be 20 tx.recipient
              ++ (be 8 tx.value
                  ++ (be 8 tx.gas_price ++ (be 8 tx.gas_limit ++ (tx.priority ∷ tx.payload)))))))

  unfoldable pub signing_hash : Transaction → ℕ
  unfolding double_sha256
  signing_hash tx = double_sha256 (
      tx.version
      ∷ (be 8 tx.nonce
          ++ (be 20 tx.sender
              ++ (be 20 tx.recipient
                  ++ (be 8 tx.value
                      ++ (be 8 tx.gas_price
                          ++ (be 8 tx.gas_limit ++ (tx.priority ∷ tx.payload))))))))

  -- `TxLess`. Comparing the bytes of two 32-byte ids is comparing the numbers.
  unfoldable pub tx_less : Transaction → Transaction → Bool
  tx_less i j =
      if i.gas_price == j.gas_price
      then (if i.priority == j.priority then ltb (tx_id i) (tx_id j) else ltb j.priority i.priority)
      else ltb j.gas_price i.gas_price
