-- ===== src/Prelude/Words.antt =====
-- Go's uint64 and int as native numbers: the wrap-around is written out.
use Prim.Native.Nat.{ℕ, ◌+◌, ◌-◌, ◌*◌, ◌%◌}
use mathlib.Core.Path.{◌≡◌, refl}
use mathlib.Core.Logic.{◌⊎◌, inl, inr}
use mathlib.Core.Bool.{Bool, true, false}
use tylium.Prelude.Tests.{ltb, leb, if◌then◌else◌}

-- `a + b`, `a - b` and `a * b` on uint64.
abbrev pub add64 : ℕ → ℕ → ℕ
add64 a b = (a + b) % 18446744073709551616

abbrev pub sub64 : ℕ → ℕ → ℕ
sub64 a b = (a + 18446744073709551616 - b) % 18446744073709551616

abbrev pub mul64 : ℕ → ℕ → ℕ
mul64 a b = (a * b) % 18446744073709551616

-- A Go int; `negsuc n` is -(n + 1).
pub data ℤ : Type 0 where
  pos : ℕ → ℤ
  negsuc : ℕ → ℤ

-- `int(v)` of a uint64, on a 64-bit machine.
abbrev pub int_of_u64 : ℕ → ℤ
int_of_u64 v = if ltb v 9223372036854775808 then pos v else negsuc (18446744073709551616 - v - 1)

-- `i < n` and `i >= n` for an int and a length.
abbrev pub ltb_ℤ : ℤ → ℕ → Bool
ltb_ℤ (pos i) n = ltb i n
ltb_ℤ (negsuc i) n = true

abbrev pub geb_ℤ : ℤ → ℕ → Bool
geb_ℤ (pos i) n = leb n i
geb_ℤ (negsuc i) n = false

pub ℤ-cases : (z : ℤ) → ((i : ℕ) × (z ≡ negsuc i)) ⊎ ((i : ℕ) × (z ≡ pos i))
ℤ-cases (pos i) = inr (i, refl)
ℤ-cases (negsuc i) = inl (i, refl)
