-- ===== src/Scanner/Extractor.antt =====
-- internal/scanner/extractor.go: `scanForMagic` on raw bytes and `processPayloads` on what it finds.
use tylium.Prelude.{
  ℕ, zero, suc, ◌+◌, Option, none, some, List, [], ◌∷◌, ◌++◌, ◌==◌, ltb, length, take, drop,
  if◌then◌else◌,
}
use tylium.Types.{Transaction, Checkpoint}
use tylium.Encoding.Fields.{ok, err}
use tylium.Encoding.Tx.{decode_tx}
use tylium.Encoding.Checkpoint.{decode_checkpoint}
use tylium.Encoding.Envelope.{
  type_tx, type_checkpoint, type_deposit, decode_envelope, decode_deposit,
}

-- `bytes.Index(search, magic)` is the Go library's: a parameter, the position of the first
-- occurrence of the four bytes.
module _ (index : List ℕ → Option ℕ) where
  -- The loop of `scanForMagic`. Each round drops at least four bytes, so the length is enough fuel.
  unfoldable pub scan_from : ℕ → List ℕ → List (List ℕ)
  scan_from zero search = []
  scan_from (suc fuel) search = elim (index search) [
    | none ↦ []
    | some idx ↦
        let candidate = drop idx search in
        elim (decode_envelope candidate) [
          | err e ↦ scan_from fuel (drop 4 candidate)
          | ok env ↦
              take (9 + length env.payload) candidate
              ∷ scan_from fuel (drop (9 + length env.payload) candidate)
        ]
  ]

  unfoldable pub scan_for_magic : List ℕ → List (List ℕ)
  unfolding scan_from
  scan_for_magic bytes = scan_from (length bytes) bytes

-- What a block gives so far.
pub record Extracted : Type 0 where
  pub txs : List Transaction
  pub checkpoints : List Checkpoint

-- The amount a deposit is credited with: no more than what its output burns.
unfoldable pub credited_amount : ℕ → ℕ → ℕ
credited_amount amount burn_value = if ltb burn_value amount then burn_value else amount

unfoldable pub deposit_tx : ℕ → ℕ → ℕ → Transaction
deposit_tx l1_nonce recipient credited = record {
  version = 1;
  nonce = l1_nonce;
  sender = 0;
  recipient = recipient;
  value = credited;
  gas_price = 0;
  gas_limit = 0;
  priority = 0;
  payload = [];
  signature = 0;
}

abbrev add_tx : Extracted → Transaction → Extracted
add_tx x tx = record x { txs = x.txs ++ (tx ∷ []) }

-- One payload: the `switch` on the type of its envelope.
unfoldable pub process_payload : ℕ → ℕ → List ℕ → Extracted → Extracted
unfolding credited_amount deposit_tx
process_payload burn_value l1_nonce payload x = elim (decode_envelope payload) [
  | err e ↦ x
  | ok env ↦
      if env.kind == type_tx
      then elim (decode_tx env.payload) [ err e ↦ x | ok tx ↦ add_tx x tx ]
      else if env.kind == type_checkpoint
      then elim (decode_checkpoint env.payload) [
        | err e ↦ x
        | ok cp ↦ record x { checkpoints = x.checkpoints ++ (cp ∷ []) }
      ]
      else if env.kind == type_deposit
      then elim (decode_deposit env.payload) [
        | err e ↦ x
        | ok (recipient, amount) ↦
            let credited = credited_amount amount burn_value in
            if credited == 0 then x else add_tx x (deposit_tx l1_nonce recipient credited)
      ]
      else x
]

unfoldable pub process_payloads : ℕ → ℕ → List (List ℕ) → Extracted → Extracted
unfolding process_payload
process_payloads burn_value l1_nonce [] x = x
process_payloads burn_value l1_nonce (p ∷ ps) x =
    process_payloads burn_value l1_nonce ps (process_payload burn_value l1_nonce p x)
