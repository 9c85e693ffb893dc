-- ===== src/Vm/Gas.antt =====
-- Gas: what each round of `Execute` pays, and that paying ends the loop.
use tylium.Prelude.{
  ℕ, ◌+◌, ◌≤◌, ◌<◌, ◌≡◌, refl, some, List, arith, ◌⊎◌, Option-cases, inl, inr, get_elem?,
}
use tylium.Prelude.Words.{pos, ℤ-cases}
use tylium.Vm.Opcode.{Opcode, opcode_of, gas_cost}
use tylium.Vm.Stack.{out_of_gas, invalid_opcode, Result-cases, ok, push, pop, peek, pop2, pop_swap}
use tylium.Vm.Context.{StateAccessor}
use tylium.Vm.Exec.{
  Machine, Flow, stop, go, crash, Exit, returned, panicked, running, exited, run_op, run_metered,
  step, paid, settle, fails,
}

abbrev pub machine_of : {S : Type 0} → Flow S → Machine S
machine_of (stop m) = m
machine_of (go m) = m
machine_of (crash m) = m

-- The gas that is left in the context and the gas that is reported as used.
abbrev pub accounted : {S : Type 0} → Exit S → ℕ
accounted (returned r m) = m.gas_left + r.gas_used
accounted (panicked m) = m.gas_left + m.gas_used

module _ {S : Type 0} (acc : StateAccessor S) where
  -- No instruction touches the gas itself.
  pub run_op-gas :
      (op : Opcode) (target : ℕ) (code : List ℕ) (p : ℕ) (m : Machine S) (f : Flow S)
      → run_op acc op target code p m ≡ ok f
      → ((machine_of f).gas_left ≡ m.gas_left) × ((machine_of f).gas_used ≡ m.gas_used)
  unfolding run_op push pop peek pop2 pop_swap
  run_op-gas Opcode.halt target code p m f h = ground arith
  run_op-gas Opcode.push target code p m f h = ground arith
  run_op-gas op target code p m f h = ground arith

  -- Only HALT is free, and it does not go on.
  gas_cost-two :
      (op : Opcode) (target : ℕ) (code : List ℕ) (p : ℕ) (m m' : Machine S)
      → run_op acc op target code p m ≡ ok (go m')
      → 2 ≤ gas_cost op
  unfolding run_op gas_cost
  gas_cost-two Opcode.halt target code p m m' h = cc
  gas_cost-two Opcode.push target code p m m' h = omega arith
  gas_cost-two op target code p m m' h = omega arith

  pub run_metered-running :
      (op : Opcode) (target : ℕ) (code : List ℕ) (p : ℕ) (m m' : Machine S)
      → run_metered acc op target code p m ≡ running m'
      → (gas_cost op ≤ m.gas_left) × (run_op acc op target code p (paid op m) ≡ ok (go m'))
  unfolding run_metered
  run_metered-running op target code p m m' h = ground arith

  pub run_metered-exited :
      (op : Opcode) (target : ℕ) (code : List ℕ) (p : ℕ) (m : Machine S) (e : Exit S)
      → run_metered acc op target code p m ≡ exited e
      → ((m.gas_left < gas_cost op) × (e ≡ fails m.gas_used (out_of_gas p) m))
        ⊎ ((gas_cost op ≤ m.gas_left)
            × (settle (paid op m) (run_op acc op target code p (paid op m)) ≡ exited e))
  unfolding run_metered
  run_metered-exited op target code p m e h = ground arith

  pub step-running :
      (target : ℕ) (code : List ℕ) (m m' : Machine S)
      → step acc target code m ≡ running m'
      → (p b : ℕ) × (op : Opcode) × (m.pc ≡ pos p)
        × (get_elem? code p ≡ some b)
        × (opcode_of b ≡ some op)
        × (run_metered acc op target code p m ≡ running m')
  unfolding step
  step-running target code m m' h = ground arith

  pub step-exited :
      (target : ℕ) (code : List ℕ) (m : Machine S) (e : Exit S)
      → step acc target code m ≡ exited e
      → (e ≡ panicked m)
        ⊎ ((b p : ℕ) × (e ≡ fails m.gas_used (invalid_opcode b p) m))
        ⊎ ((op : Opcode) × (p : ℕ) × (run_metered acc op target code p m ≡ exited e))
  unfolding step
  step-exited target code m e h = elim (ℤ-cases m.pc) [
    | inl (i, at) ↦ inl (ground arith)
    | inr (p, at) ↦ elim (Option-cases (get_elem? code p)) [
      | inl past ↦ inl (ground arith)
      | inr (b, here) ↦ elim (Option-cases (opcode_of b)) [
        | inl unknown ↦ inr (inl (b, p, ground arith))
        | inr (op, known) ↦ inr (inr (op, p, ground arith))
      ]
    ]
  ]

  -- A round that goes on pays at least 2, and keeps what is left and used together.
  pub step-gas_left :
      (target : ℕ) (code : List ℕ) (m m' : Machine S)
      → step acc target code m ≡ running m'
      → m'.gas_left + 2 ≤ m.gas_left
  step-gas_left target code m m' h =
      let (p, b, op, at, here, known, metered) = step-running target code m m' h in
      let (affords, ran) = run_metered-running op target code p m m' metered in
      let (left, used) = run_op-gas op target code p (paid op m) (go m') ran in
      let cost = gas_cost-two op target code p (paid op m) m' ran in omega arith

  pub step-gas :
      (target : ℕ) (code : List ℕ) (m m' : Machine S)
      → step acc target code m ≡ running m'
      → m.gas_left + m.gas_used < 18446744073709551616
      → m'.gas_left + m'.gas_used ≡ m.gas_left + m.gas_used
  step-gas target code m m' h fits =
      let (p, b, op, at, here, known, metered) = step-running target code m m' h in
      let (affords, ran) = run_metered-running op target code p m m' metered in
      let (left, used) = run_op-gas op target code p (paid op m) (go m') ran in omega arith

  settle-accounted :
      (op : Opcode) (target : ℕ) (code : List ℕ) (p : ℕ) (m : Machine S) (e : Exit S)
      → settle m (run_op acc op target code p m) ≡ exited e
      → accounted e ≡ m.gas_left + m.gas_used
  settle-accounted op target code p m e h = elim (Result-cases (run_op acc op target code p m)) [
    | inl (x, failed) ↦ ground arith
    | inr (stop m', ran) ↦ ground (arith, run_op-gas op target code p m (stop m') ran)
    | inr (go m', ran) ↦ ground arith
    | inr (crash m', ran) ↦ ground (arith, run_op-gas op target code p m (crash m') ran)
  ]

  pub step-accounted :
      (target : ℕ) (code : List ℕ) (m : Machine S) (e : Exit S)
      → step acc target code m ≡ exited e
      → m.gas_left + m.gas_used < 18446744073709551616
      → accounted e ≡ m.gas_left + m.gas_used
  step-accounted target code m e h fits = elim (step-exited target code m e h) [
    | inl lost ↦ rw lost refl
    | inr (inl (b, p, bad)) ↦ rw bad refl
    | inr (inr (op, p, metered)) ↦ elim (run_metered-exited op target code p m e metered) [
      | inl (poor, out) ↦ rw out refl
      | inr (affords, settled) ↦
          omega (arith, settle-accounted op target code p (paid op m) e settled)
    ]
  ]
