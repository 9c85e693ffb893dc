-- ===== src/Swap/Served.antt =====
-- The swap client (internal/swap/tylrpc.go) on the answers of a node (internal/rpc/handler.go).
use tylium.Prelude.{
  ℕ, ◌%◌, ◌^◌, ◌<◌, Option, none, some, List, [], ◌∷◌, take, drop, ◌≡◌, refl, ap, ◌∙◌, arith,
}
use tylium.Bytes.{be, from_be}
use tylium.Bytes.Laws.{length-be, from_be-be, shift_in-be}
use tylium.Types.{bytes_to_hash256}
use tylium.Rpc.{Hex, StateReads, StorageReply, ok, storage}
use tylium.Rpc.Params.{strip_hex_prefix, parse_address, parse_key, two_args}
use tylium.Rpc.State
use tylium.Swap.{StorageResult, Answers}
use tylium.Swap.Client.{storage_value, get_storage}

-- The reply to tyl_getStorage, as the client decodes it.
unfoldable pub decoded_reply : Hex → StorageReply → StorageResult
decoded_reply hex r = record {
  value = hex.decode_string r.value;
  finalized_value = elim r.finalized_value [ none ↦ none | some v ↦ some (hex.decode_string v) ];
}

-- What encoding/hex documents: decoding gives back what was encoded, and an encoding has only
-- hexadecimal digits, so that no prefix is taken off.
pub record IsHex (hex : Hex) : Type 0 where
  pub decodes : (b : List ℕ) → hex.decode_string (hex.encode_to_string b) ≡ some b
  pub digits : (b : List ℕ) → strip_hex_prefix (hex.encode_to_string b) ≡ hex.encode_to_string b

module _ (hex : Hex) {S : Type 0} (reads : StateReads S) where
  -- The request with the address and the slot in hexadecimal digits.
  unfoldable pub served : S → ℕ → ℕ → Option StorageResult
  unfolding decoded_reply State.get_storage
  served s addr slot =
      elim (State.get_storage hex reads
        (some (hex.encode_to_string (be 20 addr) ∷ hex.encode_to_string (be 32 slot) ∷ [])) s).0 [
          | ok (storage r) ↦ some (decoded_reply hex r)
          | _ ↦ none
        ]

  module _ (h : IsHex hex) where
    parse_address-hex :
        (addr : ℕ)
        → addr < 256 ^ 20
        → parse_address hex (hex.encode_to_string (be 20 addr)) ≡ ok addr
    unfolding parse_address
    parse_address-hex addr fits =
        let decoded = ap hex.decode_string (h.digits (be 20 addr)) ∙ h.decodes (be 20 addr) in
        ground (arith, decoded, length-be 20 addr, from_be-be 20 addr fits)

    parse_key-hex :
        (slot : ℕ) → slot < 256 ^ 32 → parse_key hex (hex.encode_to_string (be 32 slot)) ≡ ok slot
    unfolding parse_key bytes_to_hash256
    parse_key-hex slot fits =
        let decoded = ap hex.decode_string (h.digits (be 32 slot)) ∙ h.decodes (be 32 slot) in
        let whole : take 32 (be 32 slot) ≡ be 32 slot = unfold be in refl in
        ground (arith, decoded, whole, from_be-be 32 slot fits)

    storage_value-be : (v : ℕ) → storage_value (some (be 32 v)) ≡ some (v % 18446744073709551616)
    unfolding storage_value
    storage_value-be v =
        let low : from_be (drop 24 (be 32 v)) ≡ v % 18446744073709551616 =
          unfold be from_be in (shift_in-be 8 0 v ∙ omega arith) in
        ground (arith, length-be 32 v, low)

    -- The client reads the low eight bytes of a slot of 32 bytes.
    pub get_storage-served :
        (a : Answers) (s : S) (addr slot : ℕ)
        → a.storage ≡ served s
        → addr < 256 ^ 20
        → slot < 256 ^ 32
        → get_storage a addr slot ≡ some ((reads.get_storage addr slot s).0 % 18446744073709551616)
    unfolding get_storage served decoded_reply State.get_storage State.storage_at two_args
    get_storage-served a s addr slot same small key_small =
        let v = (reads.get_storage addr slot s).0 in
        ap (λ f. elim (f addr slot) [ none ↦ none | some r ↦ storage_value r.value ]) same
        ∙ ground (
          arith,
          parse_address-hex addr small,
          parse_key-hex slot key_small,
          h.decodes (be 32 v),
          storage_value-be v,
        )
