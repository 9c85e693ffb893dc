-- ===== src/Vm/Rounds.antt =====
-- The loop of `Execute` taken apart into rounds: it ends, and an invariant of the rounds holds
-- where it ends.
use tylium.Prelude.{
  ℕ, zero, suc, ◌<◌, ◌≡◌, refl, sym, ◌∙◌, true, false, some, List, arith, ◌⊎◌, inl, inr, Bool,
  Bool-cases, length,
}
use mathlib.Core.Path.{subst}
use tylium.Prelude.Words.{ltb_ℤ}
use tylium.Vm.Context.{StateAccessor}
use tylium.Vm.Exec.{Machine, Exit, Outcome, running, exited, succeeds, step, exec}
use tylium.Vm.Gas.{step-gas_left}

Outcome-cases :
    {S : Type 0} (o : Outcome S)
    → ((m : Machine S) × (o ≡ running m)) ⊎ ((e : Exit S) × (o ≡ exited e))
Outcome-cases (running m) = inl (m, refl)
Outcome-cases (exited e) = inr (e, refl)

module _ {S : Type 0} (acc : StateAccessor S) (target : ℕ) (code : List ℕ) where
  -- `pc < len(ctx.Code)`
  abbrev pub inside : Machine S → Bool
  inside m = ltb_ℤ m.pc (length code)

  pub exec-running :
      (fuel : ℕ) (m m' : Machine S)
      → inside m ≡ true
      → step acc target code m ≡ running m'
      → exec acc (suc fuel) target code m ≡ exec acc fuel target code m'
  unfolding exec
  exec-running fuel m m' within ran = ground arith

  pub exec-exited :
      (fuel : ℕ) (m : Machine S) (e : Exit S)
      → inside m ≡ true
      → step acc target code m ≡ exited e
      → exec acc (suc fuel) target code m ≡ some e
  unfolding exec
  exec-exited fuel m e within left = ground arith

  exec-outside :
      (fuel : ℕ) (m : Machine S)
      → inside m ≡ false
      → exec acc (suc fuel) target code m ≡ some (succeeds m)
  unfolding exec
  exec-outside fuel m beyond = ground arith

  -- Fuel above the gas is enough.
  pub exec_total :
      (fuel : ℕ) (m : Machine S)
      → m.gas_left < fuel
      → (e : Exit S) × (exec acc fuel target code m ≡ some e)
  exec_total zero m h = absurd (omega arith)
  exec_total (suc fuel) m h = elim (Bool-cases (inside m)) [
    | inr beyond ↦ (succeeds m, exec-outside fuel m beyond)
    | inl within ↦ elim (Outcome-cases (step acc target code m)) [
      | inr (e, left) ↦ (e, exec-exited fuel m e within left)
      | inl (m', ran) ↦
          let (e, rest) =
            exec_total fuel m' (omega (arith, step-gas_left acc target code m m' ran)) in
          (e, exec-running fuel m m' within ran ∙ rest)
    ]
  ]

  -- An invariant of the rounds gives a postcondition of the loop.
  module _ {ℓ κ} (I : Machine S → Type ℓ) (Q : Exit S → Type κ)
      (keeps : (m m' : Machine S) → I m → step acc target code m ≡ running m' → I m')
      (exits : (m : Machine S) (e : Exit S)
        → I m
        → inside m ≡ true
        → step acc target code m ≡ exited e
        → Q e)
      (falls_off : (m : Machine S) → I m → Q (succeeds m)) where
    pub exec_rule :
        (fuel : ℕ) (m : Machine S) (e : Exit S) → I m → exec acc fuel target code m ≡ some e → Q e
    unfolding exec
    exec_rule zero m e i h = absurd (cc)
    exec_rule (suc fuel) m e i h = elim (Bool-cases (inside m)) [
      | inr beyond ↦ subst Q (cc (exec-outside fuel m beyond)) (falls_off m i)
      | inl within ↦ elim (Outcome-cases (step acc target code m)) [
        | inr (e', left) ↦
            subst Q (cc (exec-exited fuel m e' within left)) (exits m e' i within left)
        | inl (m', ran) ↦
            exec_rule fuel m' e (keeps m m' i ran) (sym (exec-running fuel m m' within ran) ∙ h)
      ]
    ]
