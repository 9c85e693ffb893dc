-- ===== src/Executor/Apart.antt =====
-- internal/executor/executor.go: the slots that call data reach.
use tylium.Prelude.{
  ℕ, ◌+◌, ◌*◌, ◌≤◌, ◌<◌, ◌≡◌, false, some, List, ◌∷◌, length, ◌⊎◌, if◌then◌else◌, ◌∙◌, refl, arith,
  ◌==◌, ltb, ==_ne,
}
use tylium.State.Ledger.{Ledger, ledger_ops}
use tylium.Executor.Slots.{write_args, write_call_data, next_slot}
use tylium.Executor.Claims.{system_slot}

module _ (sha256 : List ℕ → ℕ) where
  -- Call data of at most 65,536 bytes, from slot 100 on and past slot 103, stays below slot 10000.
  write_args-apart :
      (bytes : List ℕ) (slot k : ℕ) (s : Ledger)
      → 100 ≤ slot
      → 8 * slot + (if ltb slot 103 then 8 else 0) + length bytes ≤ 79999
      → (k < 100) ⊎ (10000 ≤ k)
      → system_slot k (write_args (ledger_ops sha256) 1 slot bytes s) ≡ system_slot k s
  unfolding write_args
  write_args-apart (b₀ ∷ b₁ ∷ b₂ ∷ b₃ ∷ b₄ ∷ b₅ ∷ b₆ ∷ b₇ ∷ rest) slot k s past room far =
      let apart : (slot == k) ≡ false = ==_ne slot k (λ e. ground (arith, far)) in
      write_args-apart rest (next_slot (ledger_ops sha256) slot) k _ (ground arith)
        (ground (arith, room)) far
      ∙ ground (arith, apart)
  write_args-apart _ slot k s past room far = refl

  pub write_call_data-apart :
      (caller : ℕ) (bytes : List ℕ) (k : ℕ) (s s₁ : Ledger)
      → length bytes ≤ 65536
      → (k < 100) ⊎ (10000 ≤ k)
      → write_call_data (ledger_ops sha256) 1 caller bytes s ≡ some (tt, s₁)
      → system_slot k s₁ ≡ system_slot k s
  unfolding write_call_data
  write_call_data-apart caller bytes k s s₁ short far wrote =
      let apart : (103 == k) ≡ false = ==_ne 103 k (λ e. ground (arith, far)) in
      ground (arith, wrote, apart) ∙ write_args-apart bytes 100 k s (omega arith) (omega arith) far
