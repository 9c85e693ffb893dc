-- ===== src/Node/Tests.antt =====
-- A small node and a small chain, and the theorems there.
use tylium.Prelude.{
  true, ℕ, ◌+◌, ◌≡◌, Option, none, some, List, [], ◌∷◌, refl, arith, ◌==◌, take, if◌then◌else◌,
}
use tylium.Bytes.{be, from_be, shift_in}
use tylium.Types.{Checkpoint}
use tylium.Types.Order.{double_sha256}
use tylium.State.Ledger.{Ledger, ledger_ops}
use tylium.Scanner.Block.{BtcBlock, ScanResult}
use tylium.Executor.Settle.{Registry}
use tylium.Executor.Block.{Block, process_block}
use tylium.Miner.{
  mine, search_nonces, try_nonce, attestation_of, distance, build_checkpoint,
  checkpoint_signing_hash,
}
use tylium.Miner.Search.{Mined, mine-Mined}
use tylium.Signature.{verify, pub_key_to_address}
use tylium.Node.Base.{TrieOps, StoreOps, Outside, Node, Step, done, failed, panicked}
use tylium.Node.Finality.{validate_checkpoint}
use tylium.Node.Reorg.{find_fork_point, take_block}
use tylium.Node.Sync.{sync}
use tylium.Node.Bounded.{Bounded, Ends}
use tylium.Node.Resync.{sync-Ends}
use tylium.Node.Forks.{IsFork, find_fork_point-IsFork}
use tylium.Node.Finalized.{Advances, take_block-Advances}

-- A stand-in for SHA-256: the number in the first 32 bytes.
abbrev pub first_word : List ℕ → ℕ
first_word bytes = from_be (take 32 bytes)

abbrev signed_by_one : ℕ → Option ℕ
signed_by_one h = some (h + 1)

abbrev pub no_roots : ℕ → Option ℕ
no_roots root = none

abbrev empty_block : Block
empty_block = record {
  height = 0;
  l1_block_hash = 0;
  prev_state_root = 0;
  state_root = 0;
  tx_root = 0;
  receipt_root = 0;
  transactions = [];
  gas_used = 0;
  coinbase = 0;
}

abbrev pub libraries : Outside
libraries = record {
  crypto = record {
    sha256 = first_word;
    curve = record {
      recover_compact = λ bytes h. none;
      parse_der_signature = λ bytes. some (1, 1);
      verify_parsed = λ p h key. true;
      ripemd160 = λ bytes. 0;
    };
  };
  sort_slice = λ less txs. txs;
  index = λ bytes. none;
  decompress_pub_key = λ key. some (key + 100);
  serialize_compressed = λ key. key;
  marshal_block = λ block. [];
  unmarshal_block = λ bytes. some empty_block;
  marshal_receipts = λ rs. [];
  marshal_receipt = λ r. [];
}

-- A store that keeps the hashes of the Bitcoin blocks only.
abbrev pub Hashes : Type 0
Hashes = ℕ → ℕ

abbrev pub hash_store : StoreOps Hashes
hash_store = record {
  get_l1_hash = λ h d. some (d h);
  get_block = λ h d. some (some []);
  get_tx_count = λ d. some 0;
  get_tx_receipt = λ id d. some none;
  put_height = λ h d. d;
  put_state_root = λ r d. d;
  put_l1_hash = λ h x d k. if h == k then x else d k;
  put_block = λ h bytes d. d;
  put_receipts = λ h bytes d. d;
  put_tx_receipt = λ id bytes d. d;
  put_tx_index = λ i id d. d;
  put_tx_count = λ k d. d;
  put_code = λ h code d. d;
  put_contract = λ id a d. d;
  put_finalized_height = λ h d. d;
  put_finalized_root = λ r d. d;
  delete_l1_hashes_above = λ h d. d;
}

abbrev ledger_tries : TrieOps Ledger
ledger_tries = record {
  load_trie_root = λ r s. s;
  clear_storage_tries = λ s. s;
  flush_tries = λ s. s;
  snapshot_finalized = λ s. s;
  all_codes = λ s. [];
}

abbrev pub no_contracts : Registry → List (ℕ × ℕ)
no_contracts registry = []

abbrev blank : Ledger
blank = record {
  view = record { accounts = λ a. none; slots = λ a k. 0 };
  codes = λ h. none;
  saved = [];
}

-- At height 10 of a chain from 8; the hash of the block at a height is 100 more than the height.
abbrev started : Node Ledger Hashes
started = record {
  genesis_height = 8;
  executor = record { state = blank; current_height = 10; coinbase = 0; contract_by_id = no_roots };
  store = some (λ h. if h == 9 then 109 else 0);
  last_height = 10;
  state_root = 0;
  finalized_height = 0;
  finalized_root = 0;
  last_checkpoint = none;
  root_to_height = no_roots;
}

abbrev chain : ℕ → Option BtcBlock
chain h = some (record { height = h; hash = h + 100; prev_hash = h + 99; txs = [] })

abbrev pub mined : Checkpoint
mined = record {
  state_root = 5;
  prev_checksum = 3;
  tx_root = 0;
  gas_collected = 0;
  miner_pub_key = 70;
  miner_nonce = 4;
  attestation_hash = 4;
  signature = 6;
}

abbrev draws : List (Option ℕ)
draws = some 9 ∷ (none ∷ (some 4 ∷ []))

mined-mine : mine first_word 70 signed_by_one 5 3 draws ≡ some mined
unfolding mine search_nonces try_nonce attestation_of distance build_checkpoint
    checkpoint_signing_hash double_sha256 be from_be shift_in
mined-mine = refl

mine-Mined_example : Mined first_word 70 signed_by_one 5 3 draws mined
mine-Mined_example = mine-Mined first_word 70 signed_by_one 5 3 draws mined mined-mine

find_fork_point-IsFork_example :
    IsFork libraries
      (ledger_ops first_word)
      ledger_tries
      hash_store
      no_contracts
      chain
      8
      (λ h. if h == 9 then 109 else 7)
      10
      (find_fork_point libraries
        (ledger_ops first_word)
        ledger_tries
        hash_store
        no_contracts
        chain
        8
        (λ h. if h == 9 then 109 else 7)
        10)
find_fork_point-IsFork_example =
    find_fork_point-IsFork libraries (ledger_ops first_word) ledger_tries hash_store no_contracts
      chain 8 (λ h. if h == 9 then 109 else 7) 10 (omega arith) (omega arith) (omega arith)

chain-heights : (h : ℕ) (block : BtcBlock) → chain h ≡ some block → block.height ≡ h
chain-heights h block e = ground (arith, e)

started-Bounded : Bounded started
started-Bounded = record {
  genesis = refl;
  last = refl;
  finalized = omega arith;
  roots = λ r h e. ground (arith, e);
}

sync-Ends_example :
    Ends libraries (ledger_ops first_word) ledger_tries hash_store no_contracts 8 12 (
      sync libraries
        (ledger_ops first_word)
        ledger_tries
        hash_store
        no_contracts
        chain
        (some 12)
        started)
sync-Ends_example =
    sync-Ends libraries (ledger_ops first_word) ledger_tries hash_store no_contracts chain
      chain-heights 12 started (omega arith) (omega arith) started-Bounded

-- A checkpoint for the root of the ledger, in a block without transactions.
abbrev mined_tip : Checkpoint
mined_tip = record mined { state_root = 0; signature = 1 }

abbrev scanned : ScanResult
scanned = record {
  l1_height = 11;
  l1_block_hash = 111;
  l1_prev_hash = 110;
  payloads = [];
  checkpoints = mined_tip ∷ [];
}

abbrev node_of : Step (Node Ledger Hashes) → Node Ledger Hashes
node_of (done n) = n
node_of (failed e n) = n
node_of panicked = started

abbrev taken : Step (Node Ledger Hashes)
taken =
    take_block libraries (ledger_ops first_word) ledger_tries hash_store no_contracts scanned
      started

taken-done : taken ≡ done (node_of taken)
unfolding take_block attestation_of checkpoint_signing_hash double_sha256 be from_be shift_in
    process_block validate_checkpoint verify pub_key_to_address
taken-done = refl

-- The tip is finalized.
taken-raised : (node_of taken).finalized_height ≡ 11
unfolding take_block attestation_of checkpoint_signing_hash double_sha256 be from_be shift_in
    process_block validate_checkpoint verify pub_key_to_address
taken-raised = refl

take_block-Advances_example : Advances started (node_of taken)
take_block-Advances_example =
    take_block-Advances libraries (ledger_ops first_word) ledger_tries hash_store no_contracts
      scanned started (node_of taken) taken-done
