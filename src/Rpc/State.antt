-- ===== src/Rpc/State.antt =====
-- internal/rpc/handler.go: the methods that read the state.
use tylium.Prelude.{ℕ, false, not, Option, none, some, List, [], if◌then◌else◌}
use tylium.Bytes.{be}
use tylium.Types.{is_contract}
use tylium.Rpc.{
  Hex, StateReads, StorageReply, Result, account, balance, storage, code, Answer, ok, err,
}
use tylium.Rpc.Params.{parse_address, parse_key, one_arg, two_args}

abbrev pub on_ok : {A B : Type 0} → Answer A → (A → Answer B) → Answer B
on_ok (ok a) f = f a
on_ok (err e) f = err e

abbrev pub or_nil : Option (List ℕ) → List ℕ
or_nil none = []
or_nil (some bytes) = bytes

module _ (hex : Hex) where
  abbrev pub hash_hex : ℕ → List ℕ
  hash_hex h = hex.encode_to_string (be 32 h)

  abbrev pub address_hex : ℕ → List ℕ
  address_hex a = hex.encode_to_string (be 20 a)

  module _ {S : Type 0} (reads : StateReads S) where
    unfoldable pub get_account : Option (List (List ℕ)) → S → Answer Result
    unfolding one_arg parse_address is_contract
    get_account params s = on_ok (one_arg params) λ arg. on_ok (parse_address hex arg) λ addr.
        elim (reads.get_account addr s) [
          | none ↦ ok (
              account (record {
                address = address_hex addr;
                nonce = 0;
                balance = 0;
                code_hash = [];
                storage_root = [];
                is_contract = false;
              }))
          | some acct ↦ ok (
              account (record {
                address = address_hex addr;
                nonce = acct.nonce;
                balance = acct.balance;
                code_hash = hash_hex acct.code_hash;
                storage_root = hash_hex acct.storage_root;
                is_contract = is_contract acct;
              }))
        ]

    unfoldable pub get_balance : Option (List (List ℕ)) → S → Answer Result
    unfolding one_arg parse_address
    get_balance params s = on_ok (one_arg params) λ arg. on_ok (parse_address hex arg) λ addr.
        ok (
          balance (address_hex addr) (reads.get_balance addr s)
            (reads.get_finalized_balance addr s))

    -- The optimistic value, and the finalized one where there is a snapshot.
    unfoldable pub storage_at : ℕ → ℕ → S → StorageReply × S
    storage_at addr key s =
        let (val, s') = reads.get_storage addr key s in
        let (final, s'') = reads.get_finalized_storage addr key s' in
        (
          record {
            address = address_hex addr;
            key = hash_hex key;
            value = hash_hex val;
            finalized_value = elim final [ none ↦ none | some v ↦ some (hash_hex v) ];
          },
          s'',
        )

    unfoldable pub get_storage : Option (List (List ℕ)) → S → Answer Result × S
    unfolding two_args parse_address parse_key storage_at
    get_storage params s = elim (two_args params) [
      | err e ↦ (err e, s)
      | ok (a, k) ↦ elim (parse_address hex a) [
        | err e ↦ (err e, s)
        | ok addr ↦ elim (parse_key hex k) [
          | err e ↦ (err e, s)
          | ok key ↦ let (reply, s') = storage_at addr key s in (ok (storage reply), s')
        ]
      ]
    ]

    unfoldable pub get_code : Option (List (List ℕ)) → S → Answer Result
    unfolding one_arg parse_address is_contract
    get_code params s = on_ok (one_arg params) λ arg. on_ok (parse_address hex arg) λ addr.
        elim (reads.get_account addr s) [
          | none ↦ ok (code (address_hex addr) [] [])
          | some acct ↦
              if not (is_contract acct)
              then ok (code (address_hex addr) [] [])
              else ok (
                  code (address_hex addr)
                    (hex.encode_to_string (or_nil (reads.get_code acct.code_hash s)))
                    (hash_hex acct.code_hash))
        ]
