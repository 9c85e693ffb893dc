-- ===== src/Swap/Records.antt =====
-- internal/swap/types.go and daemon.go: the swaps, the daemon, and what it is told from outside.
use tylium.Prelude.{ℕ, Bool, true, false, Option, none, some, List, [], ◌∷◌, ◌==◌, if◌then◌else◌}
use tylium.Prelude.Words.{ℤ}

pub data Direction : Type 0 where
  buy sell : Direction

pub data SwapState : Type 0 where
  created htlc_locked invoice_created payment_in_flight : SwapState
  claimed settled refunded swap_failed refund_submitted : SwapState

-- `s != StateSettled && s != StateFailed && s != StateRefunded`
abbrev pub is_active : SwapState → Bool
is_active settled = false
is_active refunded = false
is_active swap_failed = false
is_active _ = true

-- The message of `Error` is one that `failSwap` gives.
pub record Swap : Type 0 where
  pub id : ℕ
  pub direction : Direction
  pub state : SwapState
  pub hash : ℕ
  pub preimage : ℕ
  pub amount_tybtc : ℕ
  pub amount_sats : ℤ
  pub htlc_id : ℕ
  pub timelock : ℕ
  pub invoice : List ℕ
  pub recipient : ℕ
  pub payment_failed : Bool
  pub verified : Bool

-- The map of swaps, whose keys are the IDs of the swaps in it.
unfoldable pub find : ℕ → List Swap → Option Swap
find id [] = none
find id (s ∷ swaps) = let rest = find id swaps in if s.id == id then some s else rest

unfoldable pub put : Swap → List Swap → List Swap
put s [] = s ∷ []
put s (t ∷ swaps) = let rest = put s swaps in if t.id == s.id then s ∷ swaps else t ∷ rest

-- What the daemon asks of the others beyond reading, the latest first.
pub data Action : Type 0 where
  add_hold_invoice : ℕ → ℤ → ℕ → Action
  cancel_invoice settle_invoice : ℕ → Action
  send_payment embed_envelope : List ℕ → Action

-- The directory of the daemon: swaps.json, and the files of preimages. The errors of the writes are
-- only logged; a read gives `none` where there is no file, or no good one.
pub record DiskOps (D : Type 0) : Type 0 where
  pub write_swaps : List Swap → D → D
  pub read_swaps : D → Option (List Swap)
  pub write_preimage : ℕ → ℕ → D → D
  pub read_preimage : ℕ → D → Option (List ℕ)

-- The configuration and the fields of the Go struct. There is no disk without a `DataDir`.
pub record Daemon (D : Type 0) : Type 0 where
  pub fee_bps : ℤ
  pub timelock : ℕ
  pub max_swap_size : ℕ
  pub addr : ℕ
  pub disk : Option D
  pub swaps : List Swap
  pub seq : ℕ
  pub active_hashes : ℕ → Option ℕ
  pub actions : List Action

-- The JSON of tyl_getStorage with its hexadecimal strings decoded.
pub record StorageResult : Type 0 where
  pub value : Option (List ℕ)
  pub finalized_value : Option (Option (List ℕ))

pub data InvoiceState : Type 0 where
  invoice_open invoice_settled invoice_canceled invoice_accepted : InvoiceState

pub record DecodedInvoice : Type 0 where
  pub payment_hash : Option (List ℕ)
  pub num_satoshis : ℤ

-- What the node, the Lightning client, the signer and the Bitcoin client answer during one piece of
-- work; `none` is an error. `storage` answers the calls of GetStorage, `finalized` those of
-- GetFinalizedStorage.
pub record Answers : Type 0 where
  pub height : Option ℕ
  pub account : ℕ → Option (ℕ × ℕ)
  pub storage : ℕ → ℕ → Option StorageResult
  pub finalized : ℕ → ℕ → Option StorageResult
  pub hold_invoice : ℕ → ℤ → ℕ → Option (List ℕ)
  pub lookup_invoice : ℕ → Option InvoiceState
  pub settles : ℕ → Bool
  pub decode_pay_req : List ℕ → Option DecodedInvoice
  pub pays : List ℕ → Option ℕ
  pub sign : ℕ → Option ℕ
  pub embed : List ℕ → Option ℕ

module _ {D : Type 0} where
  abbrev pub act : Action → Daemon D → Daemon D
  act a d = record d { actions = a ∷ d.actions }

  abbrev pub set_hash : ℕ → Option ℕ → Daemon D → Daemon D
  set_hash h o d = record d { active_hashes = λ k. if h == k then o else d.active_hashes k }

  abbrev pub set_swap : Swap → Daemon D → Daemon D
  set_swap s d = record d { swaps = put s d.swaps }

  module _ (disk : DiskOps D) where
    -- `persistSwaps`
    abbrev pub persist : Daemon D → Daemon D
    persist d = record d {
      disk = elim d.disk [ none ↦ none | some x ↦ some (disk.write_swaps d.swaps x) ];
    }

    abbrev pub release : Swap → Daemon D → Daemon D
    release s d = if is_active s.state then d else set_hash s.hash none d

    unfoldable pub update_state : ℕ → SwapState → Daemon D → Daemon D
    update_state id state d = elim (find id d.swaps) [
      | none ↦ persist d
      | some s ↦ let s' : Swap = record s { state = state } in persist (release s' (set_swap s' d))
    ]

    unfoldable pub fail_swap : ℕ → Daemon D → Daemon D
    fail_swap id d = elim (find id d.swaps) [
      | none ↦ persist d
      | some s ↦
          let s' : Swap = record s { state = swap_failed; payment_failed = true } in
          persist (set_hash s.hash none (set_swap s' d))
    ]
