-- ===== src/Bytes/Laws.antt =====
-- Reading back what was written in big-endian bytes, and the other way round.
use tylium.Prelude.{
  ℕ, zero, suc, ◌+◌, ◌*◌, ◌/◌, ◌%◌, ◌^◌, ◌≤◌, ◌<◌, ◌≡◌, refl, ap, List, [], ◌∷◌, length, All, arith,
}
use native.Mathlib.Nat.{
  pow-suc, div-add-mod, mod-eq_of_lt, div-div-eq-div-mul, div-eq_of_lt-le, mul-le-mul_right,
}
use mathlib.Core.Path.{ap₂}
use tylium.Bytes.{shift_in, from_be, be}

abbrev pub IsByte : ℕ → Type 0
IsByte b = b < 256

pub length-be : (n v : ℕ) → length (be n v) ≡ n
unfolding be
length-be zero v = refl
length-be (suc n) v = ap suc (length-be n v)

pub be-All : (n v : ℕ) → All IsByte (be n v)
unfolding be
be-All zero v = tt
be-All (suc n) v = (omega arith, be-All n v)

mod-mul_split : (v k : ℕ) → v % (k * 256) ≡ v / k % 256 * k + v % k
mod-mul_split v k = omega (
  arith,
  div-add-mod v k,
  div-add-mod v (k * 256),
  ap (λ (t : ℕ). k * t) (div-add-mod (v / k) 256),
  ap (λ (t : ℕ). k * t) (div-div-eq-div-mul v k 256),
)

pub shift_in-be : (n a v : ℕ) → shift_in a (be n v) ≡ a * 256 ^ n + v % 256 ^ n
unfolding be shift_in
shift_in-be zero a v = omega arith
shift_in-be (suc n) a v = omega (
  arith,
  shift_in-be n (a * 256 + v / 256 ^ n % 256) v,
  mod-mul_split v (256 ^ n),
  ap (λ (t : ℕ). v % t) (pow-suc 256 n),
  ap (λ (t : ℕ). a * t) (pow-suc 256 n),
)

-- The number that fits in the bytes comes back.
pub from_be-be : (n v : ℕ) → v < 256 ^ n → from_be (be n v) ≡ v
unfolding from_be
from_be-be n v h = omega (arith, shift_in-be n 0 v, mod-eq_of_lt h)

shift_in_bounds :
    (a : ℕ) (bs : List ℕ)
    → All IsByte bs
    → (a * 256 ^ length bs ≤ shift_in a bs) × (shift_in a bs < (a + 1) * 256 ^ length bs)
unfolding shift_in
shift_in_bounds a [] h = (omega arith, omega arith)
shift_in_bounds a (b ∷ bs) (hb, h) =
    let k = 256 ^ length bs in
    let (low, high) = shift_in_bounds (a * 256 + b) bs h in
    let step : (b + 1) * k ≤ 256 * k = mul-le-mul_right k (omega arith) in
    (
      omega (arith, low, pow-suc 256 (length bs), ap (λ (t : ℕ). a * t) (pow-suc 256 (length bs))),
      omega (
        arith,
        high,
        step,
        pow-suc 256 (length bs),
        ap (λ (t : ℕ). a * t) (pow-suc 256 (length bs)),
      ),
    )

shift_in-div : (a : ℕ) (bs : List ℕ) → All IsByte bs → shift_in a bs / 256 ^ length bs ≡ a
shift_in-div a bs h =
    div-eq_of_lt-le (256 ^ length bs) (shift_in_bounds a bs h).0 (shift_in_bounds a bs h).1

be-shift_in : (a : ℕ) (bs : List ℕ) → All IsByte bs → be (length bs) (shift_in a bs) ≡ bs
unfolding be shift_in
be-shift_in a [] h = refl
be-shift_in a (b ∷ bs) (hb, h) =
    ap₂ ◌∷◌ (omega (arith, shift_in-div (a * 256 + b) bs h)) (be-shift_in (a * 256 + b) bs h)

-- Any list of bytes is what its number is written as.
pub be-from_be : (bs : List ℕ) → All IsByte bs → be (length bs) (from_be bs) ≡ bs
unfolding from_be
be-from_be bs h = be-shift_in 0 bs h

pub from_be-lt : (bs : List ℕ) → All IsByte bs → from_be bs < 256 ^ length bs
unfolding from_be
from_be-lt bs h = omega (arith, (shift_in_bounds 0 bs h).1)
