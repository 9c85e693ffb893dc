-- ===== src/Vm/Exec.antt =====
-- The interpreter of internal/vm/vm.go. One round of the loop of `Execute` is `step`; `exec` is
-- the loop, on fuel; `execute` gives it one round more than there is gas.
use tylium.Prelude.{
  ℕ, zero, suc, ◌+◌, ◌-◌, ◌/◌, ◌%◌, Bool, true, false, Option, none, some, List, [], ◌∷◌, ltb, ◌==◌,
  ◌||◌, if◌then◌else◌, length, get_elem?, take, drop, leb,
}
use tylium.Prelude.Words.{ℤ, pos, negsuc, add64, sub64, mul64, int_of_u64, ltb_ℤ, geb_ℤ}
use tylium.Bytes.{from_be}
use tylium.Vm.Opcode.{Opcode, opcode_of, gas_cost}
use tylium.Vm.Stack.{
  VmError, division_by_zero, push_missing_length, push_data_overflow, push_invalid_length,
  jump_out_of_bounds, jumpi_out_of_bounds, out_of_gas, invalid_opcode, Result, ok, err, ◌>>=◌, push,
  pop, peek, pop2, pop_swap,
}
use tylium.Vm.Context.{StateAccessor, Context}

pub record ExecResult : Type 0 where
  pub gas_used : ℕ
  pub success : Bool
  pub error : Option VmError

-- The variables of the loop. `pc` is a Go int, and negative after a jump to 2 ^ 63 or more.
pub record Machine (S : Type 0) : Type 0 where
  pub pc : ℤ
  pub gas_left : ℕ
  pub gas_used : ℕ
  pub stack : List ℕ
  pub state : S

-- What an instruction does to the loop: HALT returns from it, any other goes on, unless Go panics.
pub data Flow (S : Type 0) : Type 0 where
  stop : Machine S → Flow S
  go : Machine S → Flow S
  crash : Machine S → Flow S

-- How `Execute` ends: with a result, or with a Go run-time panic (an index out of range, or a
-- division by zero). The
-- machine holds what is left in the context, its gas and its state.
pub data Exit (S : Type 0) : Type 0 where
  returned : ExecResult → Machine S → Exit S
  panicked : Machine S → Exit S

-- How one round of the loop ends.
pub data Outcome (S : Type 0) : Type 0 where
  running : Machine S → Outcome S
  exited : Exit S → Outcome S

-- `v := uint64(0); if c { v = 1 }`
abbrev pub flag : Bool → ℕ
flag c = if c then 1 else 0

module _ {S : Type 0} where
  -- `execErr(gasUsed, …)` and the two successful returns.
  abbrev pub fails : ℕ → VmError → Machine S → Exit S
  fails used e m = returned (record { gas_used = used; success = false; error = some e }) m

  abbrev pub succeeds : Machine S → Exit S
  succeeds m = returned (record { gas_used = m.gas_used; success = true; error = none }) m

  -- `stack := NewStack(); pc := 0; gasUsed := uint64(0)`
  abbrev pub start : Context S → Machine S
  start ctx = record {
    pc = pos 0;
    gas_left = ctx.gas_left;
    gas_used = 0;
    stack = [];
    state = ctx.state;
  }

  -- `ctx.GasLeft -= cost; gasUsed += cost`
  abbrev pub paid : Opcode → Machine S → Machine S
  paid op m = record m {
    gas_left = m.gas_left - gas_cost op;
    gas_used = add64 m.gas_used (gas_cost op);
  }

  -- The returns inside the `switch`, at the machine that has paid.
  abbrev pub settle : Machine S → Result (Flow S) → Outcome S
  settle m (err e) = exited (fails m.gas_used e m)
  settle m (ok (stop m')) = exited (succeeds m')
  settle m (ok (go m')) = running m'
  settle m (ok (crash m')) = exited (panicked m')

-- `a / b`, which panics at zero.
unfoldable pub quotient : ℕ → ℕ → Option ℕ
quotient a b = if b == 0 then none else some (a / b)

-- The big-endian value of the `n` bytes at `p`; an index past the code panics.
unfoldable pub immediate : List ℕ → ℕ → ℕ → Option ℕ
immediate code p n =
    if ltb (length code) (p + n) then none else some (from_be (take n (drop p code)))

module _ {S : Type 0} (acc : StateAccessor S) where
  -- `pc++` at the end of a round, and `pc = int(dest); continue`.
  abbrev pub next_with : ℕ → Machine S → List ℕ → Machine S
  next_with p m s = record m { pc = pos (p + 1); stack = s }

  abbrev pub jump_to : ℕ → Machine S → List ℕ → Machine S
  jump_to dest m s = record m { pc = int_of_u64 dest; stack = s }

  -- PUSH: the length byte and the immediate bytes behind position `p`.
  unfoldable pub run_push : List ℕ → ℕ → Machine S → Result (Flow S)
  unfolding immediate
  run_push code p m =
      if leb (length code) (p + 1) then err push_missing_length else elim (get_elem? code (p + 1)) [
        | none ↦ ok (crash m)
        | some n ↦
            if n == 0 || ltb 8 n
            then err (push_invalid_length n)
            else if ltb (length code) (p + 2 + n)
            then err push_data_overflow
            else elim (immediate code (p + 2) n) [
              | none ↦ ok (crash m)
              | some v ↦
                  push v m.stack >>= λ s. ok (go (record m { pc = pos (p + 2 + n); stack = s }))
            ]
      ]

  -- ADD, SUB, MUL, EQ and LT: two values popped, the top first, and one pushed.
  unfoldable pub run_binary : (ℕ → ℕ → ℕ) → ℕ → Machine S → Result (Flow S)
  run_binary f p m = do (a, b, s) ← pop2 m.stack; s' ← push (f a b) s; ok (go (next_with p m s'))

  -- The `switch` on an instruction other than HALT, at position `p`, after its gas is paid.
  unfoldable pub run_op : Opcode → ℕ → List ℕ → ℕ → Machine S → Result (Flow S)
  unfolding run_push run_binary quotient
  run_op Opcode.halt target code p m = ok (stop m)
  run_op Opcode.push target code p m = run_push code p m
  run_op Opcode.pop target code p m = do (v, s) ← pop m.stack; ok (go (next_with p m s))
  run_op Opcode.dup target code p m = do
    v ← peek m.stack
    s ← push v m.stack
    ok (go (next_with p m s))
  run_op Opcode.swap target code p m = do
    (a, s₁) ← pop_swap m.stack
    (b, s₂) ← pop_swap s₁
    ok (go (next_with p m (b ∷ a ∷ s₂)))
  run_op Opcode.add target code p m = run_binary add64 p m
  run_op Opcode.sub target code p m = run_binary sub64 p m
  run_op Opcode.mul target code p m = run_binary mul64 p m
  run_op Opcode.div target code p m = do
    (a, b, s) ← pop2 m.stack
    if b == 0 then err division_by_zero else elim (quotient a b) [
      | none ↦ ok (crash m)
      | some q ↦ push q s >>= λ s'. ok (go (next_with p m s'))
    ]
  run_op Opcode.eq target code p m = run_binary (λ a b. flag (a == b)) p m
  run_op Opcode.lt target code p m = run_binary (λ a b. flag (ltb a b)) p m
  run_op Opcode.not target code p m = do
    (a, s) ← pop m.stack
    s' ← push (flag (a == 0)) s
    ok (go (next_with p m s'))
  run_op Opcode.jump target code p m = do
    (dest, s) ← pop m.stack
    if geb_ℤ (int_of_u64 dest) (length code)
        then err (jump_out_of_bounds dest)
        else ok (go (jump_to dest m s))
  run_op Opcode.jumpi target code p m = do
    (dest, s₁) ← pop m.stack
    (c, s₂) ← pop s₁
    if c == 0
        then ok (go (next_with p m s₂))
        else if geb_ℤ (int_of_u64 dest) (length code)
        then err (jumpi_out_of_bounds dest)
        else ok (go (jump_to dest m s₂))
  run_op Opcode.sload target code p m = do
    (key, s) ← pop m.stack
    let read = acc.get_storage target key m.state
    s' ← push (read.0 % 18446744073709551616) s
    ok (go (record m { pc = pos (p + 1); stack = s'; state = read.1 }))
  run_op Opcode.sstore target code p m = do
    (key, s₁) ← pop m.stack
    (v, s₂) ← pop s₁
    ok (
        go
          (record m { pc = pos (p + 1); stack = s₂; state = acc.set_storage target key v m.state }))

  -- The round from `ctx.GasLeft < cost` on, for the instruction `op` at position `p`.
  unfoldable pub run_metered : Opcode → ℕ → List ℕ → ℕ → Machine S → Outcome S
  unfolding run_op
  run_metered op target code p m =
      if ltb m.gas_left (gas_cost op)
      then exited (fails m.gas_used (out_of_gas p) m)
      else settle (paid op m) (run_op op target code p (paid op m))

  -- One round of the loop: `ctx.Code[pc]` panics at a negative index.
  unfoldable pub step : ℕ → List ℕ → Machine S → Outcome S
  unfolding run_metered
  step target code m = elim m.pc [
    | negsuc i ↦ exited (panicked m)
    | pos p ↦ elim (get_elem? code p) [
      | none ↦ exited (panicked m)
      | some b ↦ elim (opcode_of b) [
        | none ↦ exited (fails m.gas_used (invalid_opcode b p) m)
        | some op ↦ run_metered op target code p m
      ]
    ]
  ]

  -- The loop `for pc < len(ctx.Code)`; `none` means that the fuel ran out.
  unfoldable pub exec : ℕ → ℕ → List ℕ → Machine S → Option (Exit S)
  unfolding step
  exec zero target code m = none
  exec (suc fuel) target code m = elim (ltb_ℤ m.pc (length code)) [
    | false ↦ some (succeeds m)
    | true ↦ elim (step target code m) [ exited e ↦ some e | running m' ↦ exec fuel target code m' ]
  ]

  -- `Execute`. Each round but the last costs gas, so the gas bounds the rounds.
  unfoldable pub execute : Context S → Option (Exit S)
  unfolding exec
  execute ctx = exec (suc ctx.gas_left) ctx.target ctx.code (start ctx)
