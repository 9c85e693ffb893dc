-- ===== src/State/Ops.antt =====
-- What the executor asks of a state database, as operations on a type of states; and the monad in
-- which it calls them. `none` is a Go run-time panic.
use tylium.Prelude.{ℕ, Option, none, some, List}
use tylium.Types.{Account}
use tylium.Vm.Context.{StateAccessor}

pub record StateOps (S : Type 0) : Type 0 where
  pub get_account : ℕ → S → Option Account
  pub set_account : ℕ → Account → S → S
  pub get_storage : ℕ → ℕ → S → ℕ × S
  pub set_storage : ℕ → ℕ → ℕ → S → S
  pub get_code : ℕ → S → Option (List ℕ)
  pub set_code : ℕ → List ℕ → S → S
  pub snapshot : S → ℕ × S
  pub revert_to_snapshot : ℕ → S → S
  pub commit : S → ℕ × S
  pub root : S → ℕ

abbrev pub M : Type 0 → Type 0 → Type 0
M S A = S → Option (A × S)

infixl 5 ◌>>=◌ ◌>>◌
abbrev pub ◌>>=◌ : {S A B : Type 0} → M S A → (A → M S B) → M S B
◌>>=◌ m f s = elim (m s) [ none ↦ none | some (a, s') ↦ f a s' ]

abbrev pub ◌>>◌ : {S A B : Type 0} → M S A → M S B → M S B
m >> k = m >>= λ _. k

abbrev pub pure : {S A : Type 0} → A → M S A
pure a s = some (a, s)

abbrev pub gets : {S A : Type 0} → (S → A) → M S A
gets f s = some (f s, s)

abbrev pub modify : {S : Type 0} → (S → S) → M S (Unit {0})
modify f s = some (tt, f s)

-- `&types.Account{}`
abbrev pub no_account : Account
no_account = record { nonce = 0; balance = 0; code_hash = 0; storage_root = 0 }

abbrev pub or_new : Option Account → Account
or_new none = no_account
or_new (some a) = a

module _ {S : Type 0} (ops : StateOps S) where
  abbrev pub get_or_create_account : ℕ → S → Account
  get_or_create_account a s = or_new (ops.get_account a s)

  abbrev pub get_balance : ℕ → S → ℕ
  get_balance a s = (get_or_create_account a s).balance

  abbrev pub set_balance : ℕ → ℕ → S → S
  set_balance a v s =
      let acct = get_or_create_account a s in ops.set_account a (record acct { balance = v }) s

  -- The machine sees the state through this interface.
  abbrev pub accessor : StateAccessor S
  accessor = record {
    get_storage = ops.get_storage;
    set_storage = ops.set_storage;
    get_balance = get_balance;
    set_balance = set_balance;
  }
