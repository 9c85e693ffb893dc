-- ===== src/Bytes.antt =====
-- Big-endian bytes: `binary.BigEndian`, and the loops that shift a byte into a number.
pub mod Laws
use tylium.Prelude.{
  ℕ, zero, suc, ◌+◌, ◌*◌, ◌/◌, ◌%◌, ◌^◌, List, [], ◌∷◌, Bool, true, false, ◌==◌, if◌then◌else◌,
}

-- `for … { val = (val << 8) | uint64(b) }`. On the eight bytes of a uint64 or fewer no bit is
-- shifted out, and over the bytes of an array it gives the number that stands for the array.
unfoldable pub shift_in : ℕ → List ℕ → ℕ
shift_in v [] = v
shift_in v (b ∷ bs) = shift_in (v * 256 + b) bs

unfoldable pub from_be : List ℕ → ℕ
unfolding shift_in
from_be bs = shift_in 0 bs

-- The last `n` bytes of `v`, the most significant first: `PutUint64` at n = 8, `PutUint32` at 4.
unfoldable pub be : ℕ → ℕ → List ℕ
be zero v = []
be (suc n) v = (v / 256 ^ n % 256) ∷ be n v

-- Comparing two strings.
unfoldable pub same_bytes : List ℕ → List ℕ → Bool
same_bytes [] [] = true
same_bytes (x ∷ xs) (y ∷ ys) = let rest = same_bytes xs ys in if x == y then rest else false
same_bytes _ _ = false
