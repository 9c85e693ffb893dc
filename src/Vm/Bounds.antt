-- ===== src/Vm/Bounds.antt =====
-- The operand stack of a run of `Execute` never holds more than 1024 values, and each is a
-- uint64, whatever the code.
use native.Mathlib.Nat.{pow-le-pow_right}
use tylium.Prelude.{
  ℕ, zero, suc, ◌+◌, ◌≤◌, ◌<◌, ◌^◌, ◌≡◌, List, [], ◌∷◌, All, length, length-take, arith, take, drop,
  Option-cases, inl, inr, get_elem?,
}
use tylium.Bytes.{from_be}
use tylium.Bytes.Laws.{IsByte, from_be-lt}
use tylium.Vm.Opcode.{Opcode}
use tylium.Vm.Stack.{ok, push, pop, peek, pop2, pop_swap}
use tylium.Vm.Context.{StateAccessor, Context}
use tylium.Vm.Exec.{Machine, Flow, go, running, run_op, run_push, step, paid, start}
use tylium.Vm.Gas.{machine_of, step-running, run_metered-running}

-- The machines that the loop comes through.
pub data Reach {S : Type 0} (acc : StateAccessor S) (target : ℕ) (code : List ℕ) (m₀ : Machine S)
    : Machine S → Type 0 where
  started : Reach acc target code m₀ m₀
  next :
      {m m' : Machine S}
      → Reach acc target code m₀ m
      → step acc target code m ≡ running m'
      → Reach acc target code m₀ m'

abbrev pub IsWord : ℕ → Type 0
IsWord v = v < 18446744073709551616

pub record IsSound (s : List ℕ) : Type 0 where
  pub depth : length s ≤ 1024
  pub words : All IsWord s

take-All : (n : ℕ) (bs : List ℕ) → All IsByte bs → All IsByte (take n bs)
take-All zero bs h = tt
take-All (suc n) [] h = tt
take-All (suc n) (b ∷ bs) (hb, h) = (hb, take-All n bs h)

drop-All : (n : ℕ) (bs : List ℕ) → All IsByte bs → All IsByte (drop n bs)
drop-All zero bs h = h
drop-All (suc n) [] h = tt
drop-All (suc n) (b ∷ bs) (hb, h) = drop-All n bs h

pow_bound : (n : ℕ) → n ≤ 8 → 256 ^ n ≤ 18446744073709551616
pow_bound n h = pow-le-pow_right (omega arith) h

-- The immediate value of a PUSH of at most eight bytes is a uint64.
bytes-IsWord :
    (n p : ℕ) (code : List ℕ) → All IsByte code → n ≤ 8 → IsWord (from_be (take n (drop p code)))
bytes-IsWord n p code bytes short =
    let bs = take n (drop p code) in
    omega (
      arith,
      from_be-lt bs (take-All n (drop p code) (drop-All p code bytes)),
      pow_bound (length bs) (omega (arith, length-take n (drop p code))),
    )

module _ {S : Type 0} (acc : StateAccessor S) (target : ℕ) (code : List ℕ)
    (bytes : All IsByte code) where
  run_push-IsSound :
      (p : ℕ) (m : Machine S) (f : Flow S)
      → IsSound m.stack
      → run_push acc code p m ≡ ok f
      → IsSound (machine_of f).stack
  unfolding run_push push
  run_push-IsSound p m f i h = elim (Option-cases (get_elem? code (p + 1))) [
    | inl past ↦ ground arith
    | inr (n, here) ↦ ground (arith, bytes-IsWord n (p + 2) code bytes)
  ]

  run_op-IsSound :
      (op : Opcode) (p : ℕ) (m : Machine S) (f : Flow S)
      → IsSound m.stack
      → run_op acc op target code p m ≡ ok f
      → IsSound (machine_of f).stack
  unfolding run_op push pop peek pop2 pop_swap
  run_op-IsSound Opcode.halt p m f i h = ground arith
  run_op-IsSound Opcode.push p m f i h = run_push-IsSound p m f i h
  run_op-IsSound op p m f i h = ground arith

  step-IsSound :
      (m m' : Machine S) → IsSound m.stack → step acc target code m ≡ running m' → IsSound m'.stack
  step-IsSound m m' i h =
      let (p, b, op, at, here, known, metered) = step-running acc target code m m' h in
      let (affords, ran) = run_metered-running acc op target code p m m' metered in
      run_op-IsSound op p (paid op m) (go m') i ran

  pub Reach-IsSound :
      {m₀ m : Machine S} → IsSound m₀.stack → Reach acc target code m₀ m → IsSound m.stack
  Reach-IsSound i started = i
  Reach-IsSound i (next {m} {m'} r h) = step-IsSound m m' (Reach-IsSound i r) h

-- Whatever bytes the code has, no round of `Execute` leaves more than 1024 values on the stack,
-- and every value on it is below 2 ^ 64.
pub execute-IsSound :
    {S : Type 0} (acc : StateAccessor S) (ctx : Context S)
    → All IsByte ctx.code
    → (m : Machine S) → Reach acc ctx.target ctx.code (start ctx) m
    → IsSound m.stack
execute-IsSound acc ctx bytes m r = Reach-IsSound acc ctx.target ctx.code bytes (omega arith) r
