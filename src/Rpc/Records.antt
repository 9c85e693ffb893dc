-- ===== src/Rpc/Records.antt =====
-- internal/rpc/handler.go: what a handler reads, and what it answers.
use tylium.Prelude.{ℕ, Bool, Option, List}
use tylium.Types.{Account}

-- encoding/hex.
pub record Hex : Type 0 where
  pub encode_to_string : List ℕ → List ℕ
  pub decode_string : List ℕ → Option (List ℕ)

-- `NodeInfo`
pub record NodeInfo : Type 0 where
  pub height : ℕ
  pub state_root : ℕ
  pub finalized_height : ℕ
  pub finalized_root : ℕ

-- The reads of the state database. Those of storage can load a trie.
pub record StateReads (S : Type 0) : Type 0 where
  pub get_account : ℕ → S → Option Account
  pub get_balance : ℕ → S → ℕ
  pub get_storage : ℕ → ℕ → S → ℕ × S
  pub get_code : ℕ → S → Option (List ℕ)
  pub get_finalized_balance : ℕ → S → Option ℕ
  pub get_finalized_storage : ℕ → ℕ → S → Option ℕ × S

-- A receipt as it is stored, with the bytes of its ID.
pub record StoredReceipt : Type 0 where
  pub txid : List ℕ
  pub height : ℕ
  pub success : Bool
  pub gas_used : ℕ
  pub error : List ℕ

pub record TxEntry : Type 0 where
  pub txid : List ℕ
  pub height : ℕ
  pub success : Bool
  pub gas_used : ℕ
  pub error : List ℕ
  pub finalized : Bool

pub record AccountResult : Type 0 where
  pub address : List ℕ
  pub nonce : ℕ
  pub balance : ℕ
  pub code_hash : List ℕ
  pub storage_root : List ℕ
  pub is_contract : Bool

pub record StorageReply : Type 0 where
  pub address : List ℕ
  pub key : List ℕ
  pub value : List ℕ
  pub finalized_value : Option (List ℕ)

-- The results of the methods. `null` is the JSON value of a block or a receipt that is not there, and
-- `raw` is JSON that the store has.
pub data Result : Type 0 where
  block_height : ℕ → Result
  state_root : List ℕ → Result
  finalized : ℕ → List ℕ → ℕ → Result
  account : AccountResult → Result
  balance : List ℕ → ℕ → Option ℕ → Result
  storage : StorageReply → Result
  code : List ℕ → List ℕ → List ℕ → Result
  raw : List ℕ → Result
  receipt : TxEntry → Result
  recent : List TxEntry → Result
  null no_receipts : Result

pub data RpcError : Type 0 where
  expected_params invalid_address invalid_key invalid_txid unknown_method store_error : RpcError
  address_length : ℕ → RpcError

pub data Answer (A : Type 0) : Type 0 where
  ok : A → Answer A
  err : RpcError → Answer A
