-- ===== src/Contracts/Tests.antt =====
-- Assembled code on the machine.
use tylium.Prelude.{◌≡◌, refl, arith, [], ◌∷◌, ◌++◌}
use tylium.Prelude.Words.{pos}
use tylium.Bytes.{be}
use tylium.Vm.Stack
use tylium.Vm.Stack.{ok, ◌>>=◌}
use tylium.Vm.Context.{StateAccessor}
use tylium.Vm.Opcode.{Opcode}
use tylium.Vm.Exec.{Machine, go, step, settle, paid}
use tylium.Contracts.Asm.{Asm, new_asm, push, pack_call_data, emit, min_bytes}
use tylium.Contracts.Push.{step-push}

abbrev no_state : StateAccessor (Unit {0})
no_state = record {
  get_storage = λ a k s. (0, s);
  set_storage = λ a k v s. s;
  get_balance = λ a s. 0;
  set_balance = λ a v s. s;
}

abbrev three_hundred : Asm
three_hundred = push 300 new_asm

three_hundred-code : three_hundred.code ≡ 1 ∷ 2 ∷ 1 ∷ 44 ∷ []
unfolding push emit be min_bytes
three_hundred-code = refl

abbrev running : Machine (Unit {0})
running = record { pc = pos 4; gas_left = 100; gas_used = 0; stack = 5 ∷ []; state = tt }

step-push_example :
    step no_state 7 ((push 70000 three_hundred).code ++ (0 ∷ [])) running
    ≡ settle (paid Opcode.push running) (
        Stack.push 70000 (5 ∷ []) >>= λ s.
        ok (go (record (paid Opcode.push running) { pc = pos 9; stack = s })))
unfolding push emit be min_bytes
step-push_example =
    step-push no_state 7 70000 three_hundred (0 ∷ []) running (omega arith) refl (omega arith)

packed :
    pack_call_data (1 ∷ 258 ∷ [])
    ≡ 0 ∷ 0 ∷ 0 ∷ 0 ∷ 0 ∷ 0 ∷ 0 ∷ 1 ∷ 0 ∷ 0 ∷ 0 ∷ 0 ∷ 0 ∷ 0 ∷ 1 ∷ 2 ∷ []
unfolding pack_call_data be
packed = refl
