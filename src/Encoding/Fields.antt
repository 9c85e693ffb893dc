-- ===== src/Encoding/Fields.antt =====
-- What the decoders of pkg/encoding share: their errors, and reading a field at an offset.
use tylium.Prelude.{
  ℕ, Bool, true, false, ltb, if◌then◌else◌, zero, suc, ◌+◌, ◌^◌, ◌<◌, ◌≤◌, ◌≡◌, refl, ap, sym, ◌∙◌,
  List, [], ◌∷◌, ◌++◌, length, take, drop, All, length-take, length-drop, arith,
}
use mathlib.Core.Path.{subst, ap₂}
use tylium.Bytes.{be, from_be}
use tylium.Bytes.Laws.{IsByte, from_be-be, be-from_be, from_be-lt}

pub data CodecError : Type 0 where
  short_buffer invalid_data : CodecError

pub data Result {ℓ} (A : Type ℓ) : Type ℓ where
  ok : A → Result A
  err : CodecError → Result A

-- A decoder that tests three guards in turn and then returns `a`.
pub guards-ok {ℓ} :
    {A : Type ℓ} (b c e : Bool) (x y z : CodecError) (a r : A)
    → (if b then err x else if c then err y else if e then err z else ok a) ≡ ok r
    → (b ≡ false) × (c ≡ false) × (e ≡ false) × (r ≡ a)
guards-ok true c e x y z a r h = cc
guards-ok false true e x y z a r h = cc
guards-ok false false true x y z a r h = cc
guards-ok false false false x y z a r h = (refl, refl, refl, cc)

-- `data[off : off+n]` of a buffer that is long enough, and the number it spells.
abbrev pub slice : ℕ → ℕ → List ℕ → List ℕ
slice off n d = take n (drop off d)

unfoldable pub read_at : ℕ → ℕ → List ℕ → ℕ
read_at off n d = from_be (slice off n d)

-- A field that stands in the buffer as it was written is read back.
pub read_at-be :
    (off n v : ℕ) (d : List ℕ) → slice off n d ≡ be n v → v < 256 ^ n → read_at off n d ≡ v
unfolding read_at
read_at-be off n v d e h = ap from_be e ∙ from_be-be n v h

pub slice-All : (off n : ℕ) (d : List ℕ) → All IsByte d → All IsByte (slice off n d)
slice-All zero zero d h = tt
slice-All zero (suc n) [] h = tt
slice-All zero (suc n) (b ∷ d) (hb, h) = (hb, slice-All zero n d h)
slice-All (suc off) zero d h = tt
slice-All (suc off) (suc n) [] h = tt
slice-All (suc off) (suc n) (b ∷ d) (hb, h) = slice-All off (suc n) d h

pub length-slice : (off n : ℕ) (d : List ℕ) → off + n ≤ length d → length (slice off n d) ≡ n
length-slice off n d h = omega (arith, length-take n (drop off d), length-drop off d)

-- A field that is read is written back to the same bytes.
pub be-read_at :
    (off n : ℕ) (d : List ℕ)
    → All IsByte d
    → off + n ≤ length d
    → be n (read_at off n d) ≡ slice off n d
unfolding read_at
be-read_at off n d bytes fits =
    ap (λ k. be k (from_be (slice off n d))) (sym (length-slice off n d fits))
    ∙ be-from_be (slice off n d) (slice-All off n d bytes)

pub read_at-lt :
    (off n : ℕ) (d : List ℕ) → All IsByte d → off + n ≤ length d → read_at off n d < 256 ^ n
unfolding read_at
read_at-lt off n d bytes fits =
    subst (λ k. from_be (slice off n d) < 256 ^ k) (length-slice off n d fits)
      (from_be-lt (slice off n d) (slice-All off n d bytes))

pub take-eq : (k j : ℕ) (d : List ℕ) → k ≡ j → take k d ≡ take j d
take-eq k j d e = ap (λ n. take n d) e

drop-eq : (k j : ℕ) (d : List ℕ) → k ≡ j → drop k d ≡ drop j d
drop-eq k j d e = ap (λ n. drop n d) e

take-add : (n m : ℕ) (d : List ℕ) → take n d ++ take m (drop n d) ≡ take (n + m) d
take-add zero m d = take-eq m (0 + m) d (omega arith)
take-add (suc n) zero [] = take-eq (suc n) (suc n + 0) [] (omega arith)
take-add (suc n) (suc m) [] = take-eq (suc (n + suc m)) (suc n + suc m) [] (omega arith)
take-add (suc n) m (b ∷ d) =
    ap (λ l. b ∷ l) (take-add n m d) ∙ take-eq (suc (n + m)) (suc n + m) (b ∷ d) (omega arith)

pub drop-add : (off n : ℕ) (d : List ℕ) → drop n (drop off d) ≡ drop (off + n) d
drop-add zero n d = drop-eq n (0 + n) d (omega arith)
drop-add (suc off) zero [] = drop-eq (suc off) (suc off + 0) [] (omega arith)
drop-add (suc off) (suc n) [] = drop-eq (suc (off + suc n)) (suc off + suc n) [] (omega arith)
drop-add (suc off) n (b ∷ d) =
    drop-add off n d ∙ drop-eq (suc (off + n)) (suc off + n) (b ∷ d) (omega arith)

-- Two slices that meet are one.
pub slice-append :
    (off n m : ℕ) (d : List ℕ) → slice off n d ++ slice (off + n) m d ≡ slice off (n + m) d
slice-append off n m d =
    ap (λ l. slice off n d ++ take m l) (sym (drop-add off n d)) ∙ take-add n m (drop off d)

-- A field that was read, written in front of a slice that follows it.
pub be-read_at_append :
    (off n m : ℕ) (d : List ℕ) (l : List ℕ)
    → All IsByte d
    → off + (n + m) ≤ length d
    → l ≡ slice (off + n) m d
    → be n (read_at off n d) ++ l ≡ slice off (n + m) d
be-read_at_append off n m d l bytes long e =
    ap₂ ◌++◌ (be-read_at off n d bytes (omega arith)) e ∙ slice-append off n m d

-- A decoder whose only guard is the length.
pub guard-ok {ℓ} :
    {A : Type ℓ} (n k : ℕ) (x : CodecError) (a r : A)
    → (if ltb n k then err x else ok a) ≡ ok r
    → (k ≤ n) × (r ≡ a)
guard-ok n k x a r h = ground arith
