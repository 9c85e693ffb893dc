-- ===== src/Vm/Tests.antt =====
-- Runs of the machine on small programs, and the theorems at such inputs.
use tylium.Prelude.{ℕ, ◌≡◌, refl, true, some, none, List, [], ◌∷◌, arith, ◌==◌, if◌then◌else◌}
use tylium.Prelude.Words.{pos}
use tylium.Bytes.{from_be}
use tylium.Vm.Opcode.{opcode_of, gas_cost}
use tylium.Vm.Stack.{push, pop, pop2, out_of_gas}
use tylium.Vm.Context.{StateAccessor, Context}
use tylium.Vm.Exec.{Machine, Exit, returned, panicked, step, running, execute, start, fails}
use tylium.Vm.Gas.{accounted}
use tylium.Vm.Metering.{execute_ends}
use tylium.Vm.Bounds.{IsSound, started, next, execute-IsSound}
use tylium.Vm.Faults.{PanicsBelowZero, execute-PanicsBelowZero, far_jump, execute-far_jump}

-- A state of one contract: its storage as a list of writes, the latest first.
abbrev Slots : Type 0
Slots = List (ℕ × ℕ)

read : ℕ → Slots → ℕ
read k [] = 0
read k ((j, v) ∷ w) = if j == k then v else read k w

abbrev slots : StateAccessor Slots
slots = record {
  get_storage = λ a k s. (read k s, s);
  set_storage = λ a k v s. (k, v) ∷ s;
  get_balance = λ a s. 0;
  set_balance = λ a v s. s;
}

abbrev ctx_of : List ℕ → ℕ → Context Slots
ctx_of code gas = record {
  caller = 7;
  target = 9;
  value = 0;
  gas_left = gas;
  code = code;
  state = (5, 40) ∷ [];
}

-- slot 6 := slot 5 + 2
abbrev adder : List ℕ
adder = 1 ∷ 1 ∷ 5 ∷ 0x40 ∷ 1 ∷ 1 ∷ 2 ∷ 0x10 ∷ 1 ∷ 1 ∷ 6 ∷ 0x41 ∷ 0 ∷ 99 ∷ []

run-adder :
    execute slots (ctx_of adder 1000)
    ≡ some (
        returned
          (record { gas_used = 859; success = true; error = none })
          (record {
            pc = pos 12;
            gas_left = 141;
            gas_used = 859;
            stack = [];
            state = (6, 42) ∷ (5, 40) ∷ [];
          }))
unfolding execute opcode_of gas_cost push pop pop2 from_be read
run-adder = refl

run_out_of_gas :
    execute slots (ctx_of adder 858)
    ≡ some (
        fails 59 (out_of_gas 11) (record {
          pc = pos 11;
          gas_left = 799;
          gas_used = 59;
          stack = 6 ∷ 42 ∷ [];
          state = (5, 40) ∷ [];
        }))
unfolding execute opcode_of gas_cost push pop pop2 from_be read
run_out_of_gas = refl

execute_ends_example :
    (e : Exit Slots) × (execute slots (ctx_of adder 1000) ≡ some e) × (accounted e ≡ 1000)
execute_ends_example = execute_ends slots (ctx_of adder 1000) (omega arith)

-- The machine before the first round, and after it.
execute-IsSound_example : IsSound (5 ∷ [])
unfolding step opcode_of gas_cost push from_be
execute-IsSound_example =
    execute-IsSound slots (ctx_of adder 1000) (omega arith)
      (record { pc = pos 3; gas_left = 998; gas_used = 2; stack = 5 ∷ []; state = (5, 40) ∷ [] })
      (next started first_round)
  where
    first_round :
        step slots 9 adder (start (ctx_of adder 1000))
        ≡ running (record {
          pc = pos 3;
          gas_left = 998;
          gas_used = 2;
          stack = 5 ∷ [];
          state = (5, 40) ∷ [];
        })
    first_round = refl

abbrev jumper : List ℕ
jumper = far_jump 9223372036854775809 (1 ∷ [])

execute-far_jump_example :
    (m : Machine Slots) × (execute slots (ctx_of jumper 10) ≡ some (panicked m))
execute-far_jump_example =
    execute-far_jump slots (ctx_of jumper 10) 9223372036854775809 (1 ∷ []) refl (omega arith)
      (omega arith) (omega arith)

execute-PanicsBelowZero_example :
    PanicsBelowZero (execute_ends slots (ctx_of jumper 10) (omega arith)).0
execute-PanicsBelowZero_example =
    execute-PanicsBelowZero slots (ctx_of jumper 10)
      (execute_ends slots (ctx_of jumper 10) (omega arith)).0
      (execute_ends slots (ctx_of jumper 10) (omega arith)).1
