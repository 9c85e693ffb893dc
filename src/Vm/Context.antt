-- ===== src/Vm/Context.antt =====
-- internal/vm/context.go: what the machine is given. The state is behind an interface there, and
-- a type with its operations here. An address is a number below 2 ^ 160 and a Hash256 one below
-- 2 ^ 256, each the number that its bytes spell from the most significant on.
use tylium.Prelude.{ℕ, List}

-- A read may change the state too: the state database loads and caches a storage trie then.
pub record StateAccessor (S : Type 0) : Type 0 where
  pub get_storage : ℕ → ℕ → S → ℕ × S
  pub set_storage : ℕ → ℕ → ℕ → S → S
  pub get_balance : ℕ → S → ℕ
  pub set_balance : ℕ → ℕ → S → S

pub record Context (S : Type 0) : Type 0 where
  pub caller : ℕ
  pub target : ℕ
  pub value : ℕ
  pub gas_left : ℕ
  pub code : List ℕ
  pub state : S
