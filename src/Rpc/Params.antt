-- ===== src/Rpc/Params.antt =====
-- internal/rpc/handler.go: the parameters of a call. JSON gives a list, or `none` on an error.
use tylium.Prelude.{ℕ, Option, none, some, List, ◌∷◌, ◌&&◌, ◌==◌, ltb, length, if◌then◌else◌}
use tylium.Prelude.Words.{ℤ, pos}
use tylium.Bytes.{from_be}
use tylium.Types.{bytes_to_hash256}
use tylium.Rpc.{
  Hex, Answer, ok, err, expected_params, invalid_address, address_length, invalid_key, invalid_txid,
}

-- "0x" is 48, 120.
unfoldable pub strip_hex_prefix : List ℕ → List ℕ
strip_hex_prefix (c ∷ d ∷ rest) = if c == 48 && d == 120 then rest else c ∷ d ∷ rest
strip_hex_prefix s = s

module _ (hex : Hex) where
  unfoldable pub parse_address : List ℕ → Answer ℕ
  unfolding strip_hex_prefix
  parse_address s = elim (hex.decode_string (strip_hex_prefix s)) [
    | none ↦ err invalid_address
    | some b ↦ if length b == 20 then ok (from_be b) else err (address_length (length b))
  ]

  unfoldable pub parse_key : List ℕ → Answer ℕ
  unfolding strip_hex_prefix bytes_to_hash256
  parse_key s = elim (hex.decode_string (strip_hex_prefix s)) [
    | none ↦ err invalid_key
    | some b ↦ ok (bytes_to_hash256 b)
  ]

  unfoldable pub parse_txid : List ℕ → Answer ℕ
  unfolding strip_hex_prefix bytes_to_hash256
  parse_txid s = elim (hex.decode_string (strip_hex_prefix s)) [
    | none ↦ err invalid_txid
    | some b ↦ if length b == 32 then ok (bytes_to_hash256 b) else err invalid_txid
  ]

-- `len(args) < 1`, and the first of them.
unfoldable pub one_arg : {A : Type 0} → Option (List A) → Answer A
one_arg (some (a ∷ rest)) = ok a
one_arg _ = err expected_params

-- `len(args) < 2`
unfoldable pub two_args : {A : Type 0} → Option (List A) → Answer (A × A)
two_args (some (a ∷ b ∷ rest)) = ok (a, b)
two_args _ = err expected_params

-- The offset, if it is given and not negative.
unfoldable pub offset_of : Option (List ℤ) → ℕ
offset_of (some (pos n ∷ rest)) = n
offset_of _ = 0

-- The limit before the cap, if it is given and above zero.
unfoldable pub limit_of : Option (List ℤ) → ℕ
limit_of (some (a ∷ pos n ∷ rest)) = if ltb 0 n then n else 20
limit_of _ = 20

unfoldable pub capped : ℕ → ℕ
capped limit = if ltb 1000 limit then 1000 else limit
