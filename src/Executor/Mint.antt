-- ===== src/Executor/Mint.antt =====
-- Deposits, real and forged.
use tylium.Prelude.{
  ℕ, ◌⊎◌, Bool-cases, ◌==◌, ◌+◌, ◌<◌, ◌≤◌, true, some, ◌≡◌, ◌≢◌, refl, arith, List, [], ◌∷◌, ◌++◌,
  Option-cases, inl, inr, ==_self, ==_ne, length,
}
use tylium.Prelude.Words.{add64}
use tylium.Types.{Transaction, FitsTransaction}
use tylium.State.Ops.{get_balance}
use tylium.State.Ledger.{Ledger, ledger_ops}
use tylium.Encoding.Fields.{CodecError, Result, ok, err}
use tylium.Encoding.Tx.{encode_tx}
use tylium.Encoding.Tx.RoundTrip.{decode_tx-encode_tx}
use tylium.Encoding.Envelope.{
  encode_envelope, decode_envelope, type_tx, decode_envelope-encode_envelope, Envelope,
  type_deposit, decode_deposit,
}
use tylium.Scanner.Extractor.{Extracted, process_payload, credited_amount, deposit_tx}
use tylium.Executor.Settle.{Registry}
use tylium.Executor.Execute.{Crypto, Receipt, execute_tx, credit}

Result-cases :
    {A : Type 0} (r : Result A) → ((e : CodecError) × (r ≡ err e)) ⊎ ((a : A) × (r ≡ ok a))
Result-cases (err e) = inl (e, refl)
Result-cases (ok a) = inr (a, refl)

-- Executing the transaction succeeds without gas, adds the value to the recipient's balance and
-- leaves the other accounts and the slots alone.
pub record Minted (c : Crypto) (registry : Registry) (height : ℕ) (tx : Transaction) (s : Ledger)
    : Type 0 where
  pub receipt : Receipt
  pub after : Ledger
  pub executed :
      execute_tx c (ledger_ops c.sha256) registry height tx s ≡ some ((receipt, registry), after)
  pub succeeded : receipt.success ≡ true
  pub gasless : receipt.gas_used ≡ 0
  pub credited :
      get_balance (ledger_ops c.sha256) tx.recipient after
      ≡ add64 (get_balance (ledger_ops c.sha256) tx.recipient s) tx.value
  pub others : (a : ℕ) → a ≢ tx.recipient → after.view.accounts a ≡ s.view.accounts a
  pub slots : after.view.slots ≡ s.view.slots

module _ (c : Crypto) (registry : Registry) (height : ℕ) (tx : Transaction) (s : Ledger) where
  -- A deposit: a transaction from the zero address with a value is minted, whatever its signature.
  execute_tx-Minted : tx.sender ≡ 0 → tx.value ≢ 0 → Minted c registry height tx s
  unfolding execute_tx credit
  execute_tx-Minted system valued =
      elim (Option-cases (execute_tx c (ledger_ops c.sha256) registry height tx s)) [
        | inl stuck ↦ absurd (ground arith)
        | inr (((r, registry'), s'), ran) ↦ record {
          receipt = r;
          after = s';
          executed = ground arith;
          succeeded = ground arith;
          gasless = ground arith;
          credited = ground (arith, ==_self tx.recipient);
          others = λ a i. ground (arith, ==_ne tx.recipient a);
          slots = ground arith;
        }
      ]

module _ (tx : Transaction) (fits : FitsTransaction tx) (junk rest : List ℕ) where
  -- What the scanner makes of an envelope with an encoded transaction, whatever its output burns.
  process_payload-encode_tx :
      (burned nonce : ℕ) (x : Extracted)
      → length tx.payload ≤ 1000000
      → length junk < 2147483648
      → 9 + length (encode_tx tx ++ junk) + length rest < 4294967296
      → process_payload burned nonce (encode_envelope type_tx (encode_tx tx ++ junk) ++ rest) x
        ≡ record x { txs = x.txs ++ (tx ∷ []) }
  unfolding process_payload
  process_payload-encode_tx burned nonce x small shorter short = ground (
    arith,
    decode_envelope-encode_envelope type_tx (encode_tx tx ++ junk) rest (omega arith) short,
    decode_tx-encode_tx tx fits small junk shorter,
  )

  -- An envelope of the transaction type, in an output that burns nothing, that holds a transaction
  -- from the zero address with a value: the scanner extracts that transaction, and executing it
  -- adds the value to the recipient's balance, whatever the signature, the height and the state.
  pub forged-Minted :
      (c : Crypto) (registry : Registry) (height nonce : ℕ) (s : Ledger)
      → length tx.payload ≤ 1000000
      → length junk < 2147483648
      → 9 + length (encode_tx tx ++ junk) + length rest < 4294967296
      → tx.sender ≡ 0
      → tx.value ≢ 0
      → (process_payload 0 nonce
            (encode_envelope type_tx (encode_tx tx ++ junk) ++ rest)
            (record { txs = []; checkpoints = [] })
          ≡ record { txs = tx ∷ []; checkpoints = [] })
        × Minted c registry height tx s
  forged-Minted c registry height nonce s small shorter short system valued = (
    process_payload-encode_tx 0 nonce (record { txs = []; checkpoints = [] }) small shorter short,
    execute_tx-Minted c registry height tx s system valued,
  )

-- A payload of the deposit type adds nothing, or one transaction from the zero address whose value
-- is not zero and at most what the output burns.
pub process_payload-deposit :
    (burned nonce : ℕ) (payload : List ℕ) (x : Extracted) (env : Envelope)
    → decode_envelope payload ≡ ok env
    → env.kind ≡ type_deposit
    → (process_payload burned nonce payload x ≡ x)
      ⊎ ((recipient : ℕ) × (value : ℕ) × (process_payload burned nonce payload x
            ≡ record x { txs = x.txs ++ (deposit_tx nonce recipient value ∷ []) })
          × (value ≤ burned)
          × (value ≢ 0))
unfolding process_payload
process_payload-deposit burned nonce payload x env decoded kind =
    elim (Result-cases (decode_deposit env.payload)) [
      | inl (e, bad) ↦ inl (ground arith)
      | inr ((recipient, amount), good) ↦ elim (Bool-cases (credited_amount amount burned == 0)) [
        | inl nothing ↦ inl (ground arith)
        | inr something ↦
            inr (recipient, credited_amount amount burned, ground arith, ground arith, ground arith)
      ]
    ]
