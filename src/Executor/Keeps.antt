-- ===== src/Executor/Keeps.antt =====
-- What a transaction's call cannot do: a property of states that the operations of the database
-- keep, reverting apart, is kept by every operation of the executor that only uses those.
pub mod Htlc
pub mod Settle
pub mod Call
use tylium.Prelude.{
  ℕ, suc, Bool, true, false, Option, none, some, List, ◌∷◌, ◌≡◌, arith, if◌then◌else◌, ◌==◌, ◌&&◌,
  ltb, length, Bool-cases, Option-cases, inl, inr,
}
use tylium.Prelude.Words.{sub64}
use tylium.Types.{Transaction, caller_id, Account}
use tylium.State.Ops.{StateOps, M, ◌>>=◌, pure, gets, modify}
use tylium.Executor.Slots.{read_storage, write_storage, write_args, write_call_data}
use tylium.Vm.Context.{Context}
use tylium.Vm.Rounds.{exec_rule}
use tylium.Executor.Execute.{
  Crypto, TxError, run_machine, call_contract, create_contract, run_call, charge, credit,
}
use tylium.Vm.Exec.{
  start, execute, Machine, Exit, returned, panicked, running, exited, step, run_metered, run_op,
}
use tylium.State.Ops.{accessor}
use tylium.Executor.Settle.{
  SettleError, token_not_found, Registry, transfer_token, transfer_native, clear_slots, then_settle,
  settle_all, settle_slots, settle_amm,
}
use tylium.Executor.Htlc.{
  lock, claim, refund, query, pay_out, copy_slot, process_htlc, htlc_system_address,
}

-- The operations on accounts and slots keep `P`.
pub record IsStable {S : Type 0} (ops : StateOps S) (P : S → Type 0) : Type 0 where
  pub set_account : (a : ℕ) (x : Account) (s : S) → P s → P (ops.set_account a x s)
  pub set_storage : (a k v : ℕ) (s : S) → P s → P (ops.set_storage a k v s)
  pub get_storage : (a k : ℕ) (s : S) → P s → P (ops.get_storage a k s).1

abbrev pub Keeps : {S A : Type 0} → (S → Type 0) → M S A → Type 0
Keeps {S} {A} P m = (s : S) → P s → (a : A) (s' : S) → m s ≡ some (a, s') → P s'

module _ {S : Type 0} (P : S → Type 0) where
  pub bind-Keeps :
      {A B : Type 0} (m : M S A) (f : A → M S B)
      → Keeps P m
      → ((a : A) → Keeps P (f a))
      → Keeps P (m >>= f)
  bind-Keeps m f k l s p b s' h = elim (Option-cases (m s)) [
    | inl stuck ↦ absurd (ground arith)
    | inr ((a, t), ran) ↦ l a t (k s p a t ran) b s' (ground arith)
  ]

  pub pure-Keeps : {A : Type 0} (a : A) → Keeps P (pure a)
  pure-Keeps a s p b s' h = ground arith

  gets-Keeps : {A : Type 0} (f : S → A) → Keeps P (gets f)
  gets-Keeps f s p b s' h = ground arith

  pub modify-Keeps : (f : S → S) → ((s : S) → P s → P (f s)) → Keeps P (modify f)
  modify-Keeps f k s p b s' h = ground (arith, k s p)

  pub if-Keeps :
      {A : Type 0} (b : Bool) (m k : M S A) → Keeps P m → Keeps P k → Keeps P (if b then m else k)
  if-Keeps true m k x y = x
  if-Keeps false m k x y = y

module _ {S : Type 0} (ops : StateOps S) (P : S → Type 0) (st : IsStable ops P) where
  pub read-Keeps : (a k : ℕ) → Keeps P (read_storage ops a k)
  unfolding read_storage
  read-Keeps a k s p b s' h = ground (arith, st.get_storage a k s p)

  pub write-Keeps : (a k v : ℕ) → Keeps P (write_storage ops a k v)
  unfolding write_storage
  write-Keeps a k v s p b s' h = ground (arith, st.set_storage a k v s p)

  -- `SetStorage` group after group.
  kept-write_args : (a : ℕ) (bytes : List ℕ) (k : ℕ) (s : S) → P s → P (write_args ops a k bytes s)
  unfolding write_args
  kept-write_args a (b₀ ∷ b₁ ∷ b₂ ∷ b₃ ∷ b₄ ∷ b₅ ∷ b₆ ∷ b₇ ∷ rest) k s p =
      kept-write_args a rest _ _ (st.set_storage a k _ s p)
  kept-write_args a _ k s p = p

  pub write_call_data-Keeps :
      (a caller : ℕ) (bytes : List ℕ) → Keeps P (write_call_data ops a caller bytes)
  unfolding write_call_data
  write_call_data-Keeps a caller bytes =
      bind-Keeps P (modify (write_args ops a 100 bytes)) _
        (modify-Keeps P (write_args ops a 100 bytes) (kept-write_args a bytes 100))
        λ u. modify-Keeps P _ (st.set_storage a 103 (caller_id caller))
