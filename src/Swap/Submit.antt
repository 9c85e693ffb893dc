-- ===== src/Swap/Submit.antt =====
-- internal/swap/daemon.go, "HTLC operations": the transactions of the daemon.
use tylium.Prelude.{ℕ, ◌*◌, Option, none, some, List, [], ◌∷◌, take, drop}
use tylium.Bytes.{be, from_be}
use tylium.Types.{Transaction, caller_id}
use tylium.Types.Order.{signing_hash}
use tylium.Encoding.Tx.{encode_tx}
use tylium.Encoding.Envelope.{encode_envelope, type_tx}
use tylium.Contracts.Asm.{pack_call_data}
use tylium.Executor.Htlc.{htlc_system_address, fn_lock, fn_claim, fn_refund}
use tylium.Swap.{Answers, Daemon, act, embed_envelope}
use tylium.Swap.Client.{get_next_htlc_id}

-- `binary.BigEndian.Uint64(h[8*i : 8*i+8])` of 32 bytes.
unfoldable pub word : ℕ → ℕ → ℕ
word i h = from_be (take 8 (drop (8 * i) (be 32 h)))

unfoldable pub lock_data : ℕ → ℕ → ℕ → List ℕ
unfolding word
lock_data recipient hash timelock = pack_call_data (
    fn_lock
    ∷ caller_id recipient
    ∷ timelock
    ∷ word 0 hash
    ∷ word 1 hash
    ∷ word 2 hash
    ∷ word 3 hash
    ∷ [])

unfoldable pub claim_data : ℕ → ℕ → List ℕ
unfolding word
claim_data htlc_id preimage = pack_call_data (
    fn_claim ∷ htlc_id ∷ word 0 preimage ∷ word 1 preimage ∷ word 2 preimage ∷ word 3 preimage ∷ [])

unfoldable pub refund_data : ℕ → List ℕ
refund_data htlc_id = pack_call_data (fn_refund ∷ htlc_id ∷ [])

-- A call of the HTLC system; a claim is gasless.
abbrev pub system_call : ℕ → ℕ → ℕ → ℕ → ℕ → List ℕ → Transaction
system_call from nonce value gas_price gas_limit call_data = record {
  version = 1;
  nonce = nonce;
  sender = from;
  recipient = htlc_system_address;
  value = value;
  gas_price = gas_price;
  gas_limit = gas_limit;
  priority = 0;
  payload = call_data;
  signature = 0;
}

-- Whether the envelope went out, and the daemon with what it has asked for by then.
abbrev pub Sent : Type 0 → Type 0
Sent D = Option ℕ × Daemon D

module _ (sha256 : List ℕ → ℕ) {D : Type 0} where
  -- Signing, encoding and `EmbedEnvelope`, as the three calls end.
  unfoldable pub submit : Answers → Transaction → Daemon D → Sent D
  submit a tx d = elim (a.sign (signing_hash sha256 tx)) [
    | none ↦ (none, d)
    | some sig ↦
        let envelope = encode_envelope type_tx (encode_tx (record tx { signature = sig })) in
        (a.embed envelope, act (embed_envelope envelope) d)
  ]

  -- The next ID, read before the lock is sent, is the one that the lock is expected to get.
  unfoldable pub lock_htlc : Answers → ℕ → ℕ → ℕ → ℕ → Daemon D → Option (ℕ × ℕ) × Daemon D
  unfolding submit
  lock_htlc a recipient hash amount timelock d = elim (a.account d.addr) [
    | none ↦ (none, d)
    | some (nonce, balance) ↦ elim (get_next_htlc_id a) [
      | none ↦ (none, d)
      | some next_id ↦
          let call_data = lock_data recipient hash timelock in
          let (txid, d') = submit a (system_call d.addr nonce amount 1 100000 call_data) d in
          elim txid [ none ↦ (none, d') | some t ↦ (some (next_id, t), d') ]
    ]
  ]

  unfoldable pub claim_htlc : Answers → ℕ → ℕ → Daemon D → Sent D
  unfolding submit
  claim_htlc a htlc_id preimage d = elim (a.account d.addr) [
    | none ↦ (none, d)
    | some (nonce, balance) ↦
        submit a (system_call d.addr nonce 0 0 0 (claim_data htlc_id preimage)) d
  ]

  unfoldable pub refund_htlc : Answers → ℕ → Daemon D → Sent D
  unfolding submit
  refund_htlc a htlc_id d = elim (a.account d.addr) [
    | none ↦ (none, d)
    | some (nonce, balance) ↦ submit a (system_call d.addr nonce 0 1 100000 (refund_data htlc_id)) d
  ]
