-- ===== src/Encoding/Tx.antt =====
-- pkg/encoding/codec.go: `EncodeTx` and `DecodeTx`.
pub mod RoundTrip
use tylium.Prelude.{ℕ, ◌+◌, ◌-◌, ◌%◌, List, ◌++◌, length, ltb, if◌then◌else◌}
use tylium.Bytes.{be}
use tylium.Types.{Transaction}
use tylium.Encoding.Fields.{CodecError, short_buffer, invalid_data, Result, ok, err, slice, read_at}

-- `uint32(len(tx.Data))` wraps.
unfoldable pub encode_tx : Transaction → List ℕ
encode_tx tx =
    be 1 tx.version
    ++ (be 8 tx.nonce
        ++ (be 20 tx.sender
            ++ (be 20 tx.recipient
                ++ (be 8 tx.value
                    ++ (be 8 tx.gas_price
                        ++ (be 8 tx.gas_limit
                            ++ (be 1 tx.priority
                                ++ (be 4 (length tx.payload % 4294967296)
                                    ++ (tx.payload ++ be 64 tx.signature)))))))))

abbrev pub min_tx_size : ℕ
min_tx_size = 142

abbrev pub max_tx_data_size : ℕ
max_tx_data_size = 1000000

-- `binary.BigEndian.Uint32(data[off:])` at the length field.
abbrev pub payload_length : List ℕ → ℕ
payload_length d = read_at 74 4 d

abbrev pub fields_of : List ℕ → Transaction
fields_of d = record {
  version = read_at 0 1 d;
  nonce = read_at 1 8 d;
  sender = read_at 9 20 d;
  recipient = read_at 29 20 d;
  value = read_at 49 8 d;
  gas_price = read_at 57 8 d;
  gas_limit = read_at 65 8 d;
  priority = read_at 73 1 d;
  payload = slice 78 (payload_length d) d;
  signature = read_at (78 + payload_length d) 64 d;
}

unfoldable pub decode_tx : List ℕ → Result Transaction
decode_tx d =
    if ltb (length d) min_tx_size
    then err short_buffer
    else if ltb max_tx_data_size (payload_length d)
    then err invalid_data
    else if ltb ((length d - 78) % 4294967296) ((payload_length d + 64) % 4294967296)
    then err short_buffer
    else ok (fields_of d)
