-- ===== src/Vm/Faults.antt =====
-- When `Execute` panics: `int(dest)` of a jump is negative from 2 ^ 63 on, passes the test
-- against the length of the code, and is the index of the next round.
use tylium.Prelude.{
  ℕ, zero, suc, ◌≤◌, ◌<◌, ◌≡◌, refl, ◌≢◌, ap, ◌∙◌, ◌-◌, true, some, List, [], ◌∷◌, ◌++◌, length,
  get_elem?, arith, inl, inr, Option-cases, ◌+◌,
}
use tylium.Prelude.Words.{add64, pos, negsuc, ℤ-cases}
use tylium.Bytes.{be}
use tylium.Bytes.Laws.{from_be-be}
use tylium.Vm.Opcode.{Opcode, opcode_of, gas_cost}
use tylium.Vm.Stack.{ok, Result-cases, push, pop, peek, pop2, pop_swap}
use tylium.Vm.Gas.{run_metered-exited}
use tylium.Vm.Context.{StateAccessor, Context}
use tylium.Vm.Exec.{
  Machine, stop, go, crash, paid, Exit, returned, running, panicked, exited, run_op, run_push,
  run_metered, step, exec, execute, start,
}
use tylium.Vm.Rounds.{exec_rule, inside, exec-running, exec-exited}

get_elem?-lt : (xs : List ℕ) (i : ℕ) → i < length xs → (x : ℕ) × (get_elem? xs i ≡ some x)
get_elem?-lt [] i h = absurd (omega arith)
get_elem?-lt (x ∷ xs) zero h = (x, refl)
get_elem?-lt (x ∷ xs) (suc i) h = get_elem?-lt xs i (omega arith)

-- The result is a return, or a panic at a negative `pc`.
abbrev pub PanicsBelowZero : {S : Type 0} → Exit S → Type 0
PanicsBelowZero (returned r m) = Unit
PanicsBelowZero (panicked m) = (i : ℕ) × (m.pc ≡ negsuc i)

module _ {S : Type 0} (acc : StateAccessor S) (target : ℕ) (code : List ℕ) where
  step-below_zero :
      (m m' : Machine S) (i : ℕ)
      → m.pc ≡ negsuc i
      → step acc target code m ≡ exited (panicked m')
      → m' ≡ m
  unfolding step
  step-below_zero m m' i at h = ground arith

  -- The tests in front of a division and of the reads of a PUSH are enough.
  run_push-no_crash : (p : ℕ) (m m' : Machine S) → run_push acc code p m ≢ ok (crash m')
  unfolding run_push push
  run_push-no_crash p m m' h = ground (arith, get_elem?-lt code (p + 1))

  run_op-no_crash :
      (op : Opcode) (p : ℕ) (m m' : Machine S) → run_op acc op target code p m ≢ ok (crash m')
  unfolding run_op push pop peek pop2 pop_swap
  run_op-no_crash Opcode.push p m m' h = run_push-no_crash p m m' h
  run_op-no_crash Opcode.halt p m m' h = ground arith
  run_op-no_crash op p m m' h = ground arith

  run_metered-no_crash :
      (op : Opcode) (p : ℕ) (m m' : Machine S)
      → run_metered acc op target code p m ≢ exited (panicked m')
  run_metered-no_crash op p m m' h =
      elim (run_metered-exited acc op target code p m (panicked m') h) [
        | inl (poor, out) ↦ ground (arith, out)
        | inr (affords, settled) ↦ elim (Result-cases (run_op acc op target code p (paid op m))) [
          | inl (x, failed) ↦ ground (arith, settled, failed)
          | inr (stop t, ran) ↦ ground (arith, settled, ran)
          | inr (go t, ran) ↦ ground (arith, settled, ran)
          | inr (crash t, ran) ↦ run_op-no_crash op p (paid op m) t ran
        ]
      ]

  step-above_zero :
      (m m' : Machine S) (p : ℕ)
      → m.pc ≡ pos p
      → inside acc target code m ≡ true
      → step acc target code m ≢ exited (panicked m')
  unfolding step
  step-above_zero m m' p at within h =
      let (b, here) = get_elem?-lt code p (ground (arith, within, at)) in
      elim (Option-cases (opcode_of b)) [
        | inl unknown ↦ ground arith
        | inr (op, known) ↦ run_metered-no_crash op p m m' (ground arith)
      ]

  step-PanicsBelowZero :
      (m : Machine S) (e : Exit S)
      → inside acc target code m ≡ true
      → step acc target code m ≡ exited e
      → PanicsBelowZero e
  step-PanicsBelowZero m (returned r m') within h = tt
  step-PanicsBelowZero m (panicked m') within h = elim (ℤ-cases m.pc) [
    | inl (i, at) ↦ (i, ap (λ (x : Machine S). x.pc) (step-below_zero m m' i at h) ∙ at)
    | inr (p, at) ↦ absurd (step-above_zero m m' p at within h)
  ]

-- A panic of `Execute` comes from a negative `pc` and from nothing else: every other index into
-- the code is in range, and no division is by zero.
pub execute-PanicsBelowZero :
    {S : Type 0} (acc : StateAccessor S) (ctx : Context S) (e : Exit S)
    → execute acc ctx ≡ some e
    → PanicsBelowZero e
unfolding execute
execute-PanicsBelowZero {S} acc ctx e h =
    exec_rule acc ctx.target ctx.code (λ (m : Machine S). Unit {0}) PanicsBelowZero
      (λ m m' i ran. tt)
      (λ m e i within left. step-PanicsBelowZero acc ctx.target ctx.code m e within left)
      (λ m i. tt) (suc ctx.gas_left) (start ctx) e tt h

-- PUSH `dest` as eight bytes, JUMP, and any bytes behind them.
abbrev pub far_jump : ℕ → List ℕ → List ℕ
far_jump dest rest = 0x01 ∷ 8 ∷ (be 8 dest ++ (0x30 ∷ rest))

module _ {S : Type 0} (acc : StateAccessor S) (target dest : ℕ) (rest : List ℕ)
    (m : Machine S) where
  pushed : Machine S
  pushed = record {
    pc = pos 10;
    gas_left = m.gas_left - 2;
    gas_used = add64 m.gas_used 2;
    stack = dest ∷ [];
    state = m.state;
  }

  step-push :
      dest < 18446744073709551616
      → m.pc ≡ pos 0
      → m.stack ≡ []
      → 2 ≤ m.gas_left
      → step acc target (far_jump dest rest) m ≡ running pushed
  unfolding step run_metered run_op run_push opcode_of gas_cost push be pushed
  step-push fits at empty affords = ground (arith, from_be-be 8 dest fits)

  lost : Machine S
  unfolding pushed
  lost = record pushed {
    pc = negsuc (18446744073709551616 - dest - 1);
    gas_left = m.gas_left - 10;
    gas_used = add64 (add64 m.gas_used 2) 8;
    stack = [];
  }

  step-jump :
      9223372036854775808 ≤ dest
      → 10 ≤ m.gas_left
      → step acc target (far_jump dest rest) pushed ≡ running lost
  unfolding step run_metered run_op opcode_of gas_cost pop be lost
  step-jump far affords = ground arith

  step-lost : step acc target (far_jump dest rest) lost ≡ exited (panicked lost)
  unfolding step lost
  step-lost = refl

  inside-pushed : inside acc target (far_jump dest rest) pushed ≡ true
  unfolding pushed be
  inside-pushed = ground arith

  inside-lost : inside acc target (far_jump dest rest) lost ≡ true
  unfolding lost
  inside-lost = refl

  exec-far_jump :
      (fuel : ℕ)
      → dest < 18446744073709551616
      → 9223372036854775808 ≤ dest
      → m.pc ≡ pos 0
      → m.stack ≡ []
      → 10 ≤ m.gas_left
      → exec acc (suc (suc (suc fuel))) target (far_jump dest rest) m ≡ some (panicked lost)
  exec-far_jump fuel fits far at empty affords =
      exec-running acc target (far_jump dest rest) (suc (suc fuel)) m pushed (ground arith)
        (step-push fits at empty (omega arith))
      ∙ exec-running acc target (far_jump dest rest) (suc fuel) pushed lost inside-pushed
          (step-jump far affords)
      ∙ exec-exited acc target (far_jump dest rest) fuel lost (panicked lost) inside-lost step-lost

-- Code that pushes a destination of 2 ^ 63 or more and jumps to it makes `Execute` panic, whatever
-- stands behind the jump, wherever the contract is and whatever the state, once the gas covers
-- the two instructions.
pub execute-far_jump :
    {S : Type 0} (acc : StateAccessor S) (ctx : Context S) (dest : ℕ) (rest : List ℕ)
    → ctx.code ≡ far_jump dest rest
    → 9223372036854775808 ≤ dest
    → dest < 18446744073709551616
    → 10 ≤ ctx.gas_left
    → (m : Machine S) × (execute acc ctx ≡ some (panicked m))
unfolding execute
execute-far_jump acc ctx dest rest code far fits affords = (
  lost acc ctx.target dest rest (start ctx),
  (rw (code, gas_suc)
      (exec-far_jump acc ctx.target dest rest (start ctx) (ctx.gas_left - 2) fits far refl refl
        affords)),
)
  where
    gas_suc : suc ctx.gas_left ≡ suc (suc (suc (ctx.gas_left - 2)))
    gas_suc = omega arith
