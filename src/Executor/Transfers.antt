-- ===== src/Executor/Transfers.antt =====
-- Transfers of the settlement: between two holders they keep the sum, from a holder to itself they
-- make it grow.
use tylium.Prelude.{
  ℕ, ◌+◌, ◌%◌, ◌<◌, ◌≤◌, none, some, List, ◌≡◌, ◌≢◌, arith, ==_self, ==_ne, Option-cases, inl, inr,
}
use tylium.Prelude.Words.{add64}
use tylium.State.Ledger.{Ledger, ledger_ops}
use tylium.Executor.Slots.{read_storage, write_storage}
use tylium.Executor.Settle.{transfer_token}

module _ (sha256 : List ℕ → ℕ) where
  -- The token balance of a holder's id, as it is read.
  abbrev pub token_balance : ℕ → ℕ → Ledger → ℕ
  token_balance token id s = s.view.slots token (add64 1000 id) % 18446744073709551616

  -- A token transfer from a holder to itself, of no more than its balance and without overflow,
  -- succeeds and adds the amount to the balance.
  pub transfer_token_self :
      (token id amount : ℕ) (s : Ledger)
      → amount ≤ token_balance token id s
      → token_balance token id s + amount < 18446744073709551616
      → (s' : Ledger) × (transfer_token (ledger_ops sha256) token id id amount s ≡ some (none, s'))
        × (token_balance token id s' ≡ token_balance token id s + amount)
  unfolding transfer_token read_storage write_storage
  transfer_token_self token id amount s enough fits =
      elim (Option-cases (transfer_token (ledger_ops sha256) token id id amount s)) [
        | inl stuck ↦ absurd (ground arith)
        | inr ((e, s'), ran) ↦
            (s', ground arith, ground (arith, ==_self token, ==_self (add64 1000 id)))
      ]

  -- A token transfer that succeeds, between two holders whose balances have different slots and
  -- add up to less than 2 ^ 64, keeps the sum of the two balances.
  pub transfer_token_sum :
      (token from to amount : ℕ) (s s' : Ledger)
      → add64 1000 from ≢ add64 1000 to
      → token_balance token from s + token_balance token to s < 18446744073709551616
      → transfer_token (ledger_ops sha256) token from to amount s ≡ some (none, s')
      → token_balance token from s' + token_balance token to s'
        ≡ token_balance token from s + token_balance token to s
  unfolding transfer_token read_storage write_storage
  transfer_token_sum token from to amount s s' apart fits h = ground (
    arith,
    ==_self token,
    ==_self (add64 1000 from),
    ==_self (add64 1000 to),
    ==_ne (add64 1000 to) (add64 1000 from),
  )
