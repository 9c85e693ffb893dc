-- ===== src/Node/RestartTests.antt =====
-- A node that starts again from a small store.
use tylium.Prelude.{
  ℕ, ◌≡◌, refl, sym, arith, Bool, true, false, none, List, [], ◌∷◌, ◌==◌, ==→eq, ==_self,
  if◌then◌else◌, Bool-cases, inl, inr,
}
use mathlib.Core.Path.{ap₂}
use tylium.State.Ledger.{Ledger, ledger_ops}
use tylium.Executor.Block.{Block}
use tylium.Executor.Settle.{Registry}
use tylium.Store.Ops.{Kv, Found, found, not_found}
use tylium.Node.Base.{TrieOps, Outside}
use tylium.Node.Reorg.{persist_block}
use tylium.Node.Restart.{store_ops, restart}
use tylium.Node.Restarted.{Reliable, Resumed, restart-Resumed}

abbrev same_bytes : List ℕ → List ℕ → Bool
same_bytes [] [] = true
same_bytes [] (y ∷ ys) = false
same_bytes (x ∷ xs) [] = false
same_bytes (x ∷ xs) (y ∷ ys) = elim (x == y) [ true ↦ same_bytes xs ys | false ↦ false ]

same_bytes_self : (xs : List ℕ) → same_bytes xs xs ≡ true
same_bytes_self [] = refl
same_bytes_self (x ∷ xs) = ground (arith, ==_self x, same_bytes_self xs)

same_bytes→eq : (xs ys : List ℕ) → same_bytes xs ys ≡ true → xs ≡ ys
same_bytes→eq [] [] e = refl
same_bytes→eq [] (y ∷ ys) e = ground (arith, e)
same_bytes→eq (x ∷ xs) [] e = ground (arith, e)
same_bytes→eq (x ∷ xs) (y ∷ ys) e = elim (Bool-cases (x == y)) [
  | inl same ↦ ap₂ ◌∷◌ (==→eq x y same) (same_bytes→eq xs ys (ground (arith, same, e)))
  | inr other ↦ ground (arith, other, e)
]

-- A map from keys to what is found there.
abbrev Table : Type 0
Table = List ℕ → Found

abbrev table : Kv Table
table = record {
  get = λ k d. d k;
  put = λ k v d. (true, λ k'. if same_bytes k k' then found v else d k');
  range = λ from to d. none;
  delete_all = λ ks d. (false, d);
}

table-Reliable : Reliable table
table-Reliable = record {
  get-put = λ k v d. ground (arith, same_bytes_self k);
  get-put_other = λ k k' v d apart. elim (Bool-cases (same_bytes k' k)) [
    | inl same ↦ absurd (apart (sym (same_bytes→eq k' k same)))
    | inr other ↦ ground (arith, other)
  ];
}

abbrev stored_block : Block
stored_block = record {
  height = 12;
  l1_block_hash = 112;
  prev_state_root = 0;
  state_root = 900;
  tx_root = 0;
  receipt_root = 0;
  transactions = [];
  gas_used = 0;
  coinbase = 0;
}

abbrev libraries : Outside
libraries = record {
  crypto = record {
    sha256 = λ bytes. 77;
    curve = record {
      recover_compact = λ bytes h. none;
      parse_der_signature = λ bytes. none;
      verify_parsed = λ p h key. false;
      ripemd160 = λ bytes. 0;
    };
  };
  sort_slice = λ less txs. txs;
  index = λ bytes. none;
  decompress_pub_key = λ key. none;
  serialize_compressed = λ key. key;
  marshal_block = λ b. b.height ∷ [];
  unmarshal_block = λ bytes. none;
  marshal_receipts = λ rs. [];
  marshal_receipt = λ r. [];
}

abbrev tries : TrieOps Ledger
tries = record {
  load_trie_root = λ r s. s;
  clear_storage_tries = λ s. s;
  flush_tries = λ s. s;
  snapshot_finalized = λ s. s;
  all_codes = λ s. [];
}

abbrev one_contract : Registry → List (ℕ × ℕ)
one_contract registry = (5, 500) ∷ []

abbrev blank : Ledger
blank = record {
  view = record { accounts = λ a. none; slots = λ a k. 0 };
  codes = λ h. none;
  saved = [];
}

restart-Resumed_example :
    Resumed libraries
      (ledger_ops (λ b. 77))
      tries
      table
      table-Reliable
      one_contract
      stored_block
      (restart table tries (λ h code s. s) 8 blank (λ k. not_found))
      (restart table tries
        (λ h code s. s)
        8
        blank
        (persist_block libraries
          (ledger_ops (λ b. 77))
          tries
          (store_ops table)
          one_contract
          stored_block
          []
          ((3, 30 ∷ []) ∷ [])
          (λ id. none)
          (λ k. not_found)))
restart-Resumed_example =
    restart-Resumed libraries (ledger_ops (λ b. 77)) tries table table-Reliable one_contract
      (λ h code s. s) 8 blank stored_block [] ((3, 30 ∷ []) ∷ []) (λ id. none) (λ k. not_found)
      (omega arith) (omega arith) (omega arith)
