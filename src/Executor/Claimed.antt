-- ===== src/Executor/Claimed.antt =====
-- internal/executor/htlc.go: what a call of the system leaves of an HTLC that is claimed.
use tylium.Prelude.{
  ℕ, ◌<◌, ◌≢◌, ◌≡◌, true, false, Option, none, some, List, inl, inr, sym, ap, ◌∙◌, arith, ◌==◌, leb,
  ==_ne, Bool-cases, Option-cases, ==→eq,
}
use mathlib.Core.Path.{subst}
use tylium.Prelude.Words.{add64}
use tylium.Types.{Transaction}
use tylium.State.Ledger.{Ledger, ledger_ops}
use tylium.Executor.Slots.{read_storage, write_storage}
use tylium.Executor.Htlc.{
  Verdict, base_of, pay_out, lock, claim, refund, query, copy_slot, process_htlc, not_pending,
}
use tylium.Executor.Claims.{
  system_slot, pay_out-slots, base-far, claim-NotPending, refund-NotPending,
}

abbrev state_or : Ledger → Option (Verdict × Ledger) → Ledger
state_or s none = s
state_or s (some (v, s')) = s'

-- The HTLC exists and is claimed.
pub record Claimed (id : ℕ) (s : Ledger) : Type 0 where
  pub exists : id < system_slot 0 s
  pub status : system_slot (add64 (base_of id) 8) s ≡ 1

module _ (sha256 : List ℕ → ℕ) where
  -- A slot of an earlier record is no slot of a later one.
  records-apart :
      (id other i : ℕ)
      → id ≢ other
      → id < 1000000000000000000
      → other < 1000000000000000000
      → i < 14
      → (add64 (base_of other) i == add64 (base_of id) 8) ≡ false
  records-apart id other i distinct small also inside =
      ==_ne (add64 (base_of other) i) (add64 (base_of id) 8) (λ e. distinct (omega (arith, e)))

  -- What a call of the system leaves of a claimed HTLC.
  module _ (id : ℕ) (s : Ledger) (there : Claimed id s)
      (counted : system_slot 0 s < 1000000000000000000) where
    low : (k : ℕ) → k < 10000 → (k == add64 (base_of id) 8) ≡ false
    low k small = ==_ne k (add64 (base_of id) 8) λ e. omega (arith, e, there.exists)

    above :
        (other i k : ℕ)
        → other < 1000000000000000000
        → i < 14
        → k < 10000
        → (add64 (base_of other) i == k) ≡ false
    above = base-far sha256

    -- A refused call changes nothing.
    unchanged-Claimed :
        (m : Option (Verdict × Ledger)) (v : Verdict) (s' : Ledger)
        → m ≡ some (v, s')
        → m ≡ some (some not_pending, s)
        → Claimed id s'
    unchanged-Claimed m v s' h refused =
        subst (Claimed id) (ap (state_or s) (sym refused ∙ h)) there

    -- The status of the HTLC that the call data names is not pending, if it is this one.
    settled-here : (n : ℕ) → (id == n) ≡ true → system_slot (add64 (base_of n) 8) s ≢ 0
    settled-here n same e =
        omega
          (arith, e, there.status, ap (λ k. system_slot (add64 (base_of k) 8) s) (==→eq id n same))

    lock-Claimed :
        (height : ℕ) (tx : Transaction) (caller : ℕ) (v : Verdict) (s' : Ledger)
        → lock (ledger_ops sha256) sha256 height tx caller s ≡ some (v, s')
        → Claimed id s'
    unfolding lock read_storage write_storage
    lock-Claimed height tx caller v s' h =
        let n = system_slot 0 s in
        let apart : (i : ℕ) → i < 14 → (add64 (base_of n) i == add64 (base_of id) 8) ≡ false =
          λ i inside.
            records-apart id n i (λ e. omega (arith, e, there.exists)) (omega (arith, there.exists))
              counted inside in
        record {
          exists = ground (
            arith,
            there.exists,
            counted,
            above n 0 0 counted (omega arith) (omega arith),
            above n 1 0 counted (omega arith) (omega arith),
            above n 2 0 counted (omega arith) (omega arith),
            above n 3 0 counted (omega arith) (omega arith),
            above n 4 0 counted (omega arith) (omega arith),
            above n 5 0 counted (omega arith) (omega arith),
            above n 6 0 counted (omega arith) (omega arith),
            above n 7 0 counted (omega arith) (omega arith),
            above n 8 0 counted (omega arith) (omega arith),
          );
          status = ground (
            arith,
            there.status,
            low 0 (omega arith),
            low 200 (omega arith),
            apart 0 (omega arith),
            apart 1 (omega arith),
            apart 2 (omega arith),
            apart 3 (omega arith),
            apart 4 (omega arith),
            apart 5 (omega arith),
            apart 6 (omega arith),
            apart 7 (omega arith),
            apart 8 (omega arith),
          );
        }

    query-Claimed :
        (v : Verdict) (s' : Ledger)
        → query (ledger_ops sha256) sha256 s ≡ some (v, s')
        → Claimed id s'
    unfolding query copy_slot read_storage write_storage
    query-Claimed v s' h = record {
      exists = ground (arith, there.exists);
      status = ground (
        arith,
        there.status,
        low 200 (omega arith),
        low 201 (omega arith),
        low 202 (omega arith),
        low 203 (omega arith),
        low 204 (omega arith),
        low 205 (omega arith),
        low 206 (omega arith),
        low 207 (omega arith),
        low 208 (omega arith),
      );
    }

    claim-Claimed :
        (tx : Transaction) (caller : ℕ) (v : Verdict) (s' : Ledger)
        → claim (ledger_ops sha256) sha256 tx caller s ≡ some (v, s')
        → Claimed id s'
    unfolding claim read_storage write_storage
    claim-Claimed tx caller v s' h =
        let n = system_slot 101 s in
        let amount = system_slot (add64 (base_of n) 2) s in
        elim (Bool-cases (leb (system_slot 0 s) n)) [
          | inl absent ↦ record {
            exists = ground (arith, there.exists);
            status = ground (arith, there.status);
          }
          | inr present ↦ elim (Bool-cases (id == n)) [
            | inl same ↦ unchanged-Claimed (claim (ledger_ops sha256) sha256 tx caller s) v s' h (
                claim-NotPending sha256 tx caller s (ground (arith, present)) (settled-here n same))
            | inr other ↦
                let counted_n : n < 1000000000000000000 = ground (arith, present, counted) in
                let apart : (i : ℕ)
                    → i < 14
                    → (add64 (base_of n) i == add64 (base_of id) 8) ≡ false =
                  λ i inside.
                    records-apart id n i (λ e. ground (arith, other, e))
                      (omega (arith, there.exists)) counted_n inside in
                elim (Option-cases (pay_out (ledger_ops sha256) sha256 tx.sender amount s)) [
                  | inl stuck ↦ absurd (ground arith)
                  | inr ((paid, t), ran) ↦
                      let same = pay_out-slots sha256 tx.sender amount paid s t ran in
                      record {
                        exists = ground (
                          arith,
                          there.exists,
                          same,
                          above n 8 0 counted_n (omega arith) (omega arith),
                          above n 9 0 counted_n (omega arith) (omega arith),
                          above n 10 0 counted_n (omega arith) (omega arith),
                          above n 11 0 counted_n (omega arith) (omega arith),
                          above n 12 0 counted_n (omega arith) (omega arith),
                        );
                        status = ground (
                          arith,
                          there.status,
                          same,
                          apart 8 (omega arith),
                          apart 9 (omega arith),
                          apart 10 (omega arith),
                          apart 11 (omega arith),
                          apart 12 (omega arith),
                        );
                      }
                ]
          ]
        ]

    refund-Claimed :
        (height : ℕ) (tx : Transaction) (caller : ℕ) (v : Verdict) (s' : Ledger)
        → refund (ledger_ops sha256) sha256 height tx caller s ≡ some (v, s')
        → Claimed id s'
    unfolding refund read_storage write_storage
    refund-Claimed height tx caller v s' h =
        let n = system_slot 101 s in
        let amount = system_slot (add64 (base_of n) 2) s in
        elim (Bool-cases (leb (system_slot 0 s) n)) [
          | inl absent ↦ record {
            exists = ground (arith, there.exists);
            status = ground (arith, there.status);
          }
          | inr present ↦ elim (Bool-cases (id == n)) [
            | inl same ↦
                unchanged-Claimed (refund (ledger_ops sha256) sha256 height tx caller s) v s' h (
                  refund-NotPending sha256 height tx caller s (ground (arith, present))
                    (settled-here n same))
            | inr other ↦
                let counted_n : n < 1000000000000000000 = ground (arith, present, counted) in
                elim (Option-cases (pay_out (ledger_ops sha256) sha256 tx.sender amount s)) [
                  | inl stuck ↦ record {
                    exists = ground (arith, there.exists);
                    status = ground (arith, there.status);
                  }
                  | inr ((paid, t), ran) ↦
                      let same = pay_out-slots sha256 tx.sender amount paid s t ran in
                      record {
                        exists = ground (
                          arith,
                          there.exists,
                          same,
                          above n 8 0 counted_n (omega arith) (omega arith),
                        );
                        status = ground (
                          arith,
                          there.status,
                          same,
                          records-apart id n 8 (λ e. ground (arith, other, e))
                              (omega (arith, there.exists)) counted_n (omega arith),
                        );
                      }
                ]
          ]
        ]

    pub process_htlc-Claimed :
        (height : ℕ) (tx : Transaction) (v : Verdict) (s' : Ledger)
        → process_htlc (ledger_ops sha256) sha256 height tx s ≡ some (v, s')
        → Claimed id s'
    unfolding process_htlc read_storage
    process_htlc-Claimed height tx v s' h =
        let caller = system_slot 103 s in
        elim (Bool-cases (system_slot 100 s == 1)) [
          | inl is_lock ↦ lock-Claimed height tx caller v s' (ground arith)
          | inr k ↦ elim (Bool-cases (system_slot 100 s == 2)) [
            | inl is_claim ↦ claim-Claimed tx caller v s' (ground arith)
            | inr l ↦ elim (Bool-cases (system_slot 100 s == 3)) [
              | inl is_refund ↦ refund-Claimed height tx caller v s' (ground arith)
              | inr r ↦ elim (Bool-cases (system_slot 100 s == 4)) [
                | inl is_query ↦ query-Claimed v s' (ground arith)
                | inr q ↦ record {
                  exists = ground (arith, there.exists);
                  status = ground (arith, there.status);
                }
              ]
            ]
          ]
        ]
