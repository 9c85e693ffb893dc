-- ===== src/Types/Records.antt =====
-- pkg/types/{address,hash,transaction,account,checkpoint}.go: records and the small functions on
-- them.
use tylium.Prelude.{ℕ, ◌%◌, ◌^◌, ◌<◌, Bool, not, List, All, ◌==◌, take}
use tylium.Bytes.{from_be}
use tylium.Bytes.Laws.{IsByte}

-- `CallerID`: the low eight of the twenty bytes.
unfoldable pub caller_id : ℕ → ℕ
caller_id a = a % 18446744073709551616

abbrev pub is_zero : ℕ → Bool
is_zero h = h == 0

-- `BytesToHash256`: at most the first 32 bytes, padded on the left.
unfoldable pub bytes_to_hash256 : List ℕ → ℕ
bytes_to_hash256 b = from_be (take 32 b)

pub record Transaction : Type 0 where
  pub version : ℕ
  pub nonce : ℕ
  pub sender : ℕ
  pub recipient : ℕ
  pub value : ℕ
  pub gas_price : ℕ
  pub gas_limit : ℕ
  pub priority : ℕ
  pub payload : List ℕ
  pub signature : ℕ

pub record Account : Type 0 where
  pub nonce : ℕ
  pub balance : ℕ
  pub code_hash : ℕ
  pub storage_root : ℕ

unfoldable pub is_contract : Account → Bool
is_contract a = not (is_zero a.code_hash)

pub record Checkpoint : Type 0 where
  pub state_root : ℕ
  pub prev_checksum : ℕ
  pub tx_root : ℕ
  pub gas_collected : ℕ
  pub miner_pub_key : ℕ
  pub miner_nonce : ℕ
  pub attestation_hash : ℕ
  pub signature : ℕ

-- The ranges of the fields' Go types: what a value of the Go struct always meets.
pub record FitsTransaction (tx : Transaction) : Type 0 where
  pub version : tx.version < 256 ^ 1
  pub nonce : tx.nonce < 256 ^ 8
  pub sender : tx.sender < 256 ^ 20
  pub recipient : tx.recipient < 256 ^ 20
  pub value : tx.value < 256 ^ 8
  pub gas_price : tx.gas_price < 256 ^ 8
  pub gas_limit : tx.gas_limit < 256 ^ 8
  pub priority : tx.priority < 256 ^ 1
  pub payload : All IsByte tx.payload
  pub signature : tx.signature < 256 ^ 64

pub record FitsAccount (a : Account) : Type 0 where
  pub nonce : a.nonce < 256 ^ 8
  pub balance : a.balance < 256 ^ 8
  pub code_hash : a.code_hash < 256 ^ 32
  pub storage_root : a.storage_root < 256 ^ 32

pub record FitsCheckpoint (cp : Checkpoint) : Type 0 where
  pub state_root : cp.state_root < 256 ^ 32
  pub prev_checksum : cp.prev_checksum < 256 ^ 32
  pub tx_root : cp.tx_root < 256 ^ 32
  pub gas_collected : cp.gas_collected < 256 ^ 8
  pub miner_pub_key : cp.miner_pub_key < 256 ^ 33
  pub miner_nonce : cp.miner_nonce < 256 ^ 32
  pub attestation_hash : cp.attestation_hash < 256 ^ 32
  pub signature : cp.signature < 256 ^ 64
