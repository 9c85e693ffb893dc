-- ===== src/Vm/Metering.antt =====
-- What a run of `Execute` does with its gas.
use tylium.Prelude.{◌+◌, ◌<◌, ◌≡◌, ◌∙◌, suc, some, arith}
use tylium.Vm.Context.{StateAccessor, Context}
use tylium.Vm.Exec.{Exit, execute, start}
use tylium.Vm.Gas.{accounted, step-gas, step-accounted}
use tylium.Vm.Rounds.{exec_total, exec_rule}

module _ {S : Type 0} (acc : StateAccessor S) where
  execute_total : (ctx : Context S) → (e : Exit S) × (execute acc ctx ≡ some e)
  unfolding execute
  execute_total ctx =
      exec_total acc ctx.target ctx.code (suc ctx.gas_left) (start ctx) (omega arith)

  execute-accounted :
      (ctx : Context S) (e : Exit S)
      → ctx.gas_left < 18446744073709551616
      → execute acc ctx ≡ some e
      → accounted e ≡ ctx.gas_left
  unfolding execute
  execute-accounted ctx e fits h =
      exec_rule acc ctx.target ctx.code (λ m. m.gas_left + m.gas_used ≡ ctx.gas_left)
        (λ e. accounted e ≡ ctx.gas_left)
        (λ m m' i ran. step-gas acc ctx.target ctx.code m m' ran (omega arith) ∙ i)
        (λ m e i within left. step-accounted acc ctx.target ctx.code m e left (omega arith) ∙ i)
        (λ m i. i) (suc ctx.gas_left) (start ctx) e (omega arith) h

  -- `Execute` ends on every code, state and gas below 2 ^ 64 (the fuel of the model never runs
  -- out), and whatever way it ends, the gas that it reports as used and the gas that it leaves in
  -- the context add up to the gas that it was given.
  pub execute_ends :
      (ctx : Context S)
      → ctx.gas_left < 18446744073709551616
      → (e : Exit S) × (execute acc ctx ≡ some e) × (accounted e ≡ ctx.gas_left)
  execute_ends ctx fits =
      let (e, ended) = execute_total ctx in (e, ended, execute-accounted ctx e fits ended)
