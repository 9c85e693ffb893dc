-- ===== src/Contracts/Push.antt =====
-- What the machine makes of an assembled PUSH: contracts/asm.go and internal/vm/vm.go.
use tylium.Prelude.{
  ℕ, zero, suc, ◌+◌, ◌/◌, ◌^◌, ◌≤◌, ◌<◌, ◌≡◌, ◌≢◌, refl, sym, ap, ◌∙◌, false, some, List, [], ◌∷◌,
  ◌++◌, ◌==◌, ltb, length, take, drop, get_elem?, length-append, take-append, arith, Bool-cases,
  inl, inr, ==→eq,
}
use mathlib.Core.Path.{subst}
use mathlib.Core.List.{append_assoc}
use native.Mathlib.Nat.{pow-suc}
use tylium.Prelude.Words.{pos}
use tylium.Bytes.{be, from_be}
use tylium.Bytes.Laws.{from_be-be, length-be}
use tylium.Vm.Stack
use tylium.Vm.Stack.{ok, ◌>>=◌}
use tylium.Vm.Context.{StateAccessor}
use tylium.Vm.Opcode.{Opcode, opcode_of, gas_cost}
use tylium.Vm.Exec.{Machine, go, run_push, run_op, run_metered, step, settle, paid, immediate}
use tylium.Contracts.Asm.{Asm, push, min_bytes, emit}

-- The bytes that are counted hold the value, and are at least one for a value that is not zero.
record IsWidth (v rounds n : ℕ) : Type 0 where
  small : n ≤ rounds
  holds : v < 256 ^ n
  some_bytes : v ≢ 0 → 1 ≤ n

min_bytes-IsWidth : (rounds v : ℕ) → v < 256 ^ rounds → IsWidth v rounds (min_bytes rounds v)
unfolding min_bytes
min_bytes-IsWidth zero v fits = record {
  small = omega arith;
  holds = fits;
  some_bytes = λ set. absurd (set (omega (arith, fits)));
}
min_bytes-IsWidth (suc rounds) v fits =
    let n : ℕ = min_bytes rounds (v / 256) in
    let below = min_bytes-IsWidth rounds (v / 256) (omega (arith, fits, pow-suc 256 rounds)) in
    elim (Bool-cases (v == 0)) [
      | inl zero_ ↦ subst (IsWidth v (suc rounds)) {x = 0} (ground (arith, zero_)) (record {
        small = omega arith;
        holds = ground (arith, zero_);
        some_bytes = λ set. ground (arith, zero_, set);
      })
      | inr set_ ↦ subst (IsWidth v (suc rounds)) {x = 1 + n} (ground (arith, set_)) (record {
        small = omega (arith, below.small);
        holds = omega (
          arith,
          below.holds,
          pow-suc 256 n,
          ap (λ k. 256 ^ k) {x = 1 + n} {y = suc n} (omega arith),
        );
        some_bytes = λ set. omega arith;
      })
    ]

-- Where the opcode, the length byte and the immediate bytes stand in the code.
length_at :
    (xs : List ℕ) (n : ℕ) (ys : List ℕ) → get_elem? (xs ++ (1 ∷ n ∷ ys)) (length xs + 1) ≡ some n
length_at [] n ys = refl
length_at (x ∷ xs) n ys =
    ap (get_elem? (x ∷ xs ++ (1 ∷ n ∷ ys))) {x = length (x ∷ xs) + 1} {y = suc (length xs + 1)}
      (omega arith)
    ∙ length_at xs n ys

opcode_at :
    (xs : List ℕ) (n : ℕ) (ys : List ℕ) → get_elem? (xs ++ (1 ∷ n ∷ ys)) (length xs) ≡ some 1
opcode_at [] n ys = refl
opcode_at (x ∷ xs) n ys =
    ap (get_elem? (x ∷ xs ++ (1 ∷ n ∷ ys))) {x = length (x ∷ xs)} {y = suc (length xs)}
      (omega arith)
    ∙ opcode_at xs n ys

behind : (xs : List ℕ) (n : ℕ) (ys : List ℕ) → drop (length xs + 2) (xs ++ (1 ∷ n ∷ ys)) ≡ ys
behind [] n ys = refl
behind (x ∷ xs) n ys =
    ap (λ k. drop k (x ∷ xs ++ (1 ∷ n ∷ ys))) {x = length (x ∷ xs) + 2} {y = suc (length xs + 2)}
      (omega arith)
    ∙ behind xs n ys

-- One PUSH of `n` bytes.
run_push-be :
    {S : Type 0} (acc : StateAccessor S) (xs rest : List ℕ) (n v : ℕ) (m : Machine S)
    → 1 ≤ n
    → n ≤ 8
    → v < 256 ^ n
    → run_push acc (xs ++ (1 ∷ n ∷ (be n v ++ rest))) (length xs) m ≡ (
        Stack.push v m.stack >>= λ s.
        ok (go (record m { pc = pos (length xs + 2 + n); stack = s })))
unfolding run_push immediate
run_push-be acc xs rest n v m least most fits =
    ground (arith, least, most, length_at xs n (be n v ++ rest), room, read)
  where
    code : List ℕ
    code = xs ++ (1 ∷ n ∷ (be n v ++ rest))

    room : ltb (length code) (length xs + 2 + n) ≡ false
    room = ground (
      arith,
      length-append xs (1 ∷ n ∷ (be n v ++ rest)),
      length-append (be n v) rest,
      length-be n v,
    )

    read : from_be (take n (drop (length xs + 2) code)) ≡ v
    read =
        ap (λ l. from_be (take n l)) (behind xs n (be n v ++ rest))
        ∙ ap from_be (take-append n (be n v) rest (length-be n v))
        ∙ from_be-be n v fits

one_zero : (v : ℕ) → v ≡ 0 → be 1 v ≡ 0 ∷ []
unfolding be
one_zero v e = ap (be 1) e

-- The bytes of `Push`, in front of what follows them.
push-width :
    (v : ℕ) (a : Asm)
    → v < 256 ^ 8
    → (n : ℕ) × ((1 ≤ n)
        × ((n ≤ 8) × ((v < 256 ^ n) × ((push v a).code ≡ a.code ++ (1 ∷ n ∷ be n v)))))
unfolding push emit
push-width v a fits = elim (Bool-cases (v == 0)) [
  | inl zero_ ↦ (
    1,
    (
      omega arith,
      (omega arith, (ground (arith, zero_), ground (arith, zero_, one_zero v (==→eq v 0 zero_)))),
    ),
  )
  | inr set_ ↦
      let w = min_bytes-IsWidth 8 v fits in
      (
        min_bytes 8 v,
        (w.some_bytes (λ e. ground (arith, set_, e)), (w.small, (w.holds, ground (arith, set_)))),
      )
]

-- The bytes that `Push` adds, and what stands at their beginning.
module _ (v : ℕ) (a : Asm) (rest : List ℕ) where
  opcode_here : v < 256 ^ 8 → get_elem? ((push v a).code ++ rest) (length a.code) ≡ some 1
  opcode_here fits =
      let (n, (least, (most, (holds, code)))) = push-width v a fits in
      ap (λ l. get_elem? (l ++ rest) (length a.code)) code
      ∙ ap (λ l. get_elem? l (length a.code)) (append_assoc a.code (1 ∷ n ∷ be n v) rest)
      ∙ opcode_at a.code n (be n v ++ rest)

  run_push-push :
      {S : Type 0} (acc : StateAccessor S) (m : Machine S)
      → v < 256 ^ 8
      → run_push acc ((push v a).code ++ rest) (length a.code) m ≡ (
          Stack.push v m.stack >>= λ s.
          ok (go (record m { pc = pos (length (push v a).code); stack = s })))
  run_push-push acc m fits =
      let (n, (least, (most, (holds, code)))) = push-width v a fits in
      let whole : (push v a).code ++ rest ≡ a.code ++ (1 ∷ n ∷ (be n v ++ rest)) =
        ap (λ l. l ++ rest) code ∙ append_assoc a.code (1 ∷ n ∷ be n v) rest in
      let size : length (push v a).code ≡ length a.code + 2 + n =
        ap length code ∙ omega (arith, length-append a.code (1 ∷ n ∷ be n v), length-be n v) in
      ap (λ l. run_push acc l (length a.code) m) whole
      ∙ run_push-be acc a.code rest n v m least most holds
      ∙ ap (λ k. Stack.push v m.stack >>= λ s. ok (go (record m { pc = pos k; stack = s })))
          (sym size)

-- The round of the machine at the position where `Push` has assembled a uint64, whatever code
-- stands before and after it, pays 2 and pushes that value, or fails as a push on a full stack does,
-- and goes on right behind the assembled bytes. The gas covers the 2.
pub step-push :
    {S : Type 0} (acc : StateAccessor S) (target v : ℕ) (a : Asm) (rest : List ℕ) (m : Machine S)
    → v < 256 ^ 8
    → m.pc ≡ pos (length a.code)
    → 2 ≤ m.gas_left
    → step acc target ((push v a).code ++ rest) m
      ≡ settle (paid Opcode.push m) (
          Stack.push v m.stack >>= λ s.
          ok (go (record (paid Opcode.push m) { pc = pos (length (push v a).code); stack = s })))
unfolding step run_metered run_op opcode_of gas_cost
step-push acc target v a rest m fits at affords =
    ground (arith, opcode_here v a rest fits)
    ∙ ap (settle (paid Opcode.push m)) (run_push-push v a rest acc (paid Opcode.push m) fits)
