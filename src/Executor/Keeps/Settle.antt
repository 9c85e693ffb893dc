-- ===== src/Executor/Keeps/Settle.antt =====
-- internal/executor/executor.go: what the settlement keeps.
use tylium.Prelude.{ℕ, Option, none, some, arith, ◌==◌, ◌&&◌}
use tylium.State.Ops.{StateOps, M, ◌>>=◌, pure}
use tylium.Executor.Slots.{read_storage, write_storage}
use tylium.Executor.Settle.{
  SettleError, token_not_found, Registry, transfer_token, transfer_native, clear_slots, then_settle,
  settle_all, settle_slots, settle_amm,
}
use tylium.Executor.Keeps.{IsStable, Keeps, bind-Keeps, pure-Keeps, if-Keeps}

module _ {S : Type 0} (ops : StateOps S) (P : S → Type 0) (st : IsStable ops P) where
  transfer_token-Keeps :
      (token from to amount : ℕ) → Keeps P (transfer_token ops token from to amount)
  unfolding transfer_token read_storage write_storage
  transfer_token-Keeps token from to amount s p b s' h =
      grind (arith, st.get_storage, st.set_storage)

  transfer_native-Keeps :
      (from to amount : ℕ) (e : SettleError) → Keeps P (transfer_native ops from to amount e)
  unfolding transfer_native
  transfer_native-Keeps from to amount e s p b s' h = grind (arith, st.set_account)

  clear_slots-Keeps : (a : ℕ) → Keeps P (clear_slots ops a)
  unfolding clear_slots write_storage
  clear_slots-Keeps a s p b s' h = grind (arith, st.set_storage)

  then_settle-Keeps :
      (v : ℕ) (first rest : M S (Option SettleError))
      → Keeps P first
      → Keeps P rest
      → Keeps P (then_settle ops v first rest)
  then_settle-Keeps v first rest k l =
      if-Keeps P (v == 0) rest (first >>= go) l (bind-Keeps P first go k settled)
    where
      go : Option SettleError → M S (Option SettleError)
      go r = elim r [ some e ↦ pure (some e) | none ↦ rest ]

      settled : (r : Option SettleError) → Keeps P (go r)
      settled none = l
      settled (some e) = pure-Keeps P (some e)

  settle_all-Keeps :
      (token contract caller debit_a credit_a debit_b credit_b : ℕ)
      → Keeps P (settle_all ops token contract caller debit_a credit_a debit_b credit_b)
  unfolding settle_all
  settle_all-Keeps token contract caller debit_a credit_a debit_b credit_b =
      then_settle-Keeps debit_a _ _ (transfer_token-Keeps _ _ _ _) (
        then_settle-Keeps credit_a _ _ (transfer_token-Keeps _ _ _ _) (
          then_settle-Keeps debit_b _ _ (transfer_native-Keeps _ _ _ _)
            (then_settle-Keeps credit_b _ _ (transfer_native-Keeps _ _ _ _) (clear_slots-Keeps _))))

  settle_slots-Keeps :
      (registry : Registry) (contract caller token_id debit_a credit_a debit_b credit_b : ℕ)
      → Keeps P
          (settle_slots ops registry contract caller token_id debit_a credit_a debit_b credit_b)
  unfolding settle_slots
  settle_slots-Keeps registry contract caller token_id debit_a credit_a debit_b credit_b =
      if-Keeps P (debit_a == 0 && (credit_a == 0 && (debit_b == 0 && credit_b == 0))) (pure none)
        (go (registry token_id)) (pure-Keeps P none) (settled (registry token_id))
    where
      go : Option ℕ → M S (Option SettleError)
      go found = elim found [
        | none ↦ pure (some token_not_found)
        | some token ↦ settle_all ops token contract caller debit_a credit_a debit_b credit_b
      ]

      settled : (found : Option ℕ) → Keeps P (go found)
      settled none = pure-Keeps P (some token_not_found)
      settled (some token) =
          settle_all-Keeps token contract caller debit_a credit_a debit_b credit_b

  pub settle_amm-Keeps :
      (registry : Registry) (contract caller : ℕ)
      → Keeps P (settle_amm ops registry contract caller)
  unfolding settle_amm read_storage
  settle_amm-Keeps registry contract caller s p b s' h =
      grind (arith, st.get_storage, settle_slots-Keeps)
