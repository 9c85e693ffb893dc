-- ===== src/Encoding/Tests.antt =====
-- The codecs on small data, and their theorems there.
use tylium.Prelude.{◌^◌, ◌≡◌, refl, [], ◌∷◌, ◌++◌, arith}
use tylium.Types.{Transaction, Account, Checkpoint}
use tylium.Encoding.Fields.{ok, err, short_buffer}
use tylium.Encoding.Tx.{encode_tx, decode_tx}
use tylium.Encoding.Tx.RoundTrip.{decode_tx-encode_tx}
use tylium.Encoding.Envelope.{
  magic, type_deposit, encode_envelope, decode_envelope, decode_envelope-encode_envelope,
}

abbrev payment : Transaction
payment = record {
  version = 1;
  nonce = 7;
  sender = 0x1111;
  recipient = 0x2222;
  value = 300;
  gas_price = 1;
  gas_limit = 500;
  priority = 9;
  payload = 1 ∷ 2 ∷ 3 ∷ [];
  signature = 12345;
}

decode_tx_short : decode_tx (1 ∷ 2 ∷ []) ≡ err short_buffer
unfolding decode_tx
decode_tx_short = refl

decode_tx-encode_tx_example : decode_tx (encode_tx payment ++ (77 ∷ [])) ≡ ok payment
decode_tx-encode_tx_example =
    decode_tx-encode_tx payment (omega arith) (omega arith) (77 ∷ []) (omega arith)

abbrev holder : Account
holder = record { nonce = 3; balance = 1000000; code_hash = 0; storage_root = 2 ^ 255 }

abbrev mark : Checkpoint
mark = record {
  state_root = 11;
  prev_checksum = 10;
  tx_root = 9;
  gas_collected = 8;
  miner_pub_key = 2 ^ 257;
  miner_nonce = 6;
  attestation_hash = 5;
  signature = 4;
}

decode_envelope-encode_envelope_example :
    decode_envelope (encode_envelope type_deposit (1 ∷ 2 ∷ []) ++ (0 ∷ []))
    ≡ ok (record { magic_prefix = magic; kind = type_deposit; payload = 1 ∷ 2 ∷ [] })
decode_envelope-encode_envelope_example =
    decode_envelope-encode_envelope type_deposit (1 ∷ 2 ∷ []) (0 ∷ []) (omega arith) (omega arith)
