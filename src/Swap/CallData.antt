-- ===== src/Swap/CallData.antt =====
-- The call data of a lock (internal/swap/daemon.go), in the slots of the executor.
use tylium.Prelude.{ℕ, ◌%◌, ◌^◌, ◌<◌, List, [], ◌∷◌, All, ◌≡◌, refl, sym, ap, ◌∙◌, arith}
use mathlib.Core.Path.{subst}
use tylium.Bytes.{from_be}
use tylium.Types.{caller_id}
use tylium.State.Ledger.{Ledger, ledger_ops}
use tylium.Executor.Slots.{write_args}
use tylium.Executor.Htlc.{word_bytes, fn_lock}
use tylium.Executor.Claims.{system_slot}
use tylium.Swap.Submit.{word, lock_data}
use tylium.Swap.Words.{write_words, write_args-pack_call_data, word-lt, word_bytes-word}

-- The call data of a lock in the slots that the handler reads.
pub record Called (from recipient hash timelock : ℕ) (s s₁ : Ledger) : Type 0 where
  pub counter : system_slot 0 s₁ ≡ system_slot 0 s
  pub selector : system_slot 100 s₁ ≡ 1
  pub caller : system_slot 103 s₁ ≡ caller_id from
  pub recipient_id : system_slot 101 s₁ ≡ caller_id recipient
  pub until : system_slot 102 s₁ ≡ timelock
  pub words :
      from_be (
        word_bytes
          (system_slot 104 s₁)
          (system_slot 105 s₁)
          (system_slot 106 s₁)
          (system_slot 107 s₁))
      ≡ hash

module _ (sha256 : List ℕ → ℕ) where
  abbrev pub after_call : ℕ → ℕ → ℕ → ℕ → Ledger → Ledger
  after_call from recipient hash timelock s =
      (ledger_ops sha256).set_storage 1 103 (caller_id from)
        (write_args (ledger_ops sha256) 1 100 (lock_data recipient hash timelock) s)

  pub lock_data-Called :
      (from recipient hash timelock : ℕ) (s : Ledger)
      → hash < 256 ^ 32
      → timelock < 256 ^ 8
      → Called from recipient hash timelock s (after_call from recipient hash timelock s)
  unfolding lock_data
  lock_data-Called from recipient hash timelock s hash_fits fits =
      subst
        (λ t.
          Called from recipient hash timelock s
            ((ledger_ops sha256).set_storage 1 103 (caller_id from) t))
        (sym (write_args-pack_call_data (ledger_ops sha256) 1 100 args s args_fit)) written
    where
      args : List ℕ
      args =
          fn_lock
          ∷ caller_id recipient
          ∷ timelock
          ∷ word 0 hash
          ∷ word 1 hash
          ∷ word 2 hash
          ∷ word 3 hash
          ∷ []

      id_fits : caller_id recipient < 256 ^ 8
      id_fits = unfold caller_id in (omega arith)

      from_fits : caller_id from % 18446744073709551616 ≡ caller_id from
      from_fits = unfold caller_id in (omega arith)

      args_fit : All (λ v. v < 256 ^ 8) args
      args_fit = (
        omega arith,
        (
          id_fits,
          (
            fits,
            (
              word-lt 0 hash (omega arith),
              (
                word-lt 1 hash (omega arith),
                (word-lt 2 hash (omega arith), (word-lt 3 hash (omega arith), tt)),
              ),
            ),
          ),
        ),
      )

      low : (i : ℕ) → i < 4 → word i hash % 18446744073709551616 ≡ word i hash
      low i inside = omega (arith, word-lt i hash inside)

      written : Called from recipient hash timelock s (
          (ledger_ops sha256).set_storage 1 103
            (caller_id from)
            (write_words (ledger_ops sha256) 1 100 args s))
      written =
          unfold write_words in
          (record {
            counter = refl;
            selector = refl;
            caller = from_fits;
            recipient_id = omega (arith, id_fits);
            until = omega (arith, fits);
            words =
                ap from_be (λ i.
                  word_bytes (low 0 (omega arith) i) (low 1 (omega arith) i) (low 2 (omega arith) i)
                    (low 3 (omega arith) i))
                ∙ word_bytes-word hash hash_fits;
          })
