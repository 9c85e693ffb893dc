-- ===== src/Executor/Keeps/Htlc.antt =====
-- internal/executor/htlc.go: what the handler keeps.
use tylium.Prelude.{ℕ, List, arith}
use tylium.Types.{Transaction}
use tylium.State.Ops.{StateOps}
use tylium.Executor.Slots.{read_storage, write_storage}
use tylium.Executor.Htlc.{lock, claim, refund, query, pay_out, copy_slot, process_htlc}
use tylium.Executor.Keeps.{IsStable, Keeps, bind-Keeps, read-Keeps, write-Keeps}

module _ {S : Type 0} (ops : StateOps S) (P : S → Type 0) (st : IsStable ops P) where
  module _ (sha256 : List ℕ → ℕ) where
    pay_out-Keeps : (a v : ℕ) → Keeps P (pay_out ops sha256 a v)
    unfolding pay_out
    pay_out-Keeps a v s p b s' h = grind (arith, st.set_account)

    copy-Keeps : (a v : ℕ) → Keeps P (copy_slot ops sha256 a v)
    unfolding copy_slot
    copy-Keeps a v =
        bind-Keeps P (read_storage ops 1 v) _ (read-Keeps ops P st _ _)
          λ x. write-Keeps ops P st 1 a x

    refund-Keeps :
        (height : ℕ) (tx : Transaction) (id : ℕ) → Keeps P (refund ops sha256 height tx id)
    unfolding refund read_storage write_storage
    refund-Keeps height tx caller s p b s' h =
        grind (arith, st.set_storage, st.get_storage, pay_out-Keeps)

    query-Keeps : Keeps P (query ops sha256)
    unfolding query read_storage
    query-Keeps s p b s' h = grind (arith, st.set_storage, st.get_storage, copy-Keeps)

    lock-Keeps : (height : ℕ) (tx : Transaction) (id : ℕ) → Keeps P (lock ops sha256 height tx id)
    unfolding lock read_storage write_storage
    lock-Keeps height tx caller s p b s' h = grind (arith, st.set_storage, st.get_storage)

    claim-Keeps : (tx : Transaction) (id : ℕ) → Keeps P (claim ops sha256 tx id)
    unfolding claim read_storage write_storage
    claim-Keeps tx caller s p b s' h = grind (arith, st.set_storage, st.get_storage, pay_out-Keeps)

    pub process_htlc-Keeps :
        (height : ℕ) (tx : Transaction) → Keeps P (process_htlc ops sha256 height tx)
    unfolding process_htlc read_storage
    process_htlc-Keeps height tx s p b s' h =
        grind (arith, st.get_storage, lock-Keeps, claim-Keeps, refund-Keeps, query-Keeps)
