-- ===== src/Swap/Verify.antt =====
-- internal/swap/daemon.go: the tests of the monitor, and the search for the HTLC of a swap.
use tylium.Prelude.{
  ℕ, zero, suc, ◌+◌, ◌-◌, Bool, true, false, ◌&&◌, Option, none, some, List, [], ◌∷◌, ◌==◌,
  if◌then◌else◌,
}
use tylium.Prelude.Words.{add64}
use tylium.Swap.{
  SwapState, invoice_created, refund_submitted, is_active, Swap, Answers, InvoiceState,
  invoice_accepted,
}
use tylium.Swap.Client.{get_htlc, get_next_htlc_id}

-- The loop over the IDs from `id` on, `n` of them.
unfoldable pub scan_htlcs : Answers → Swap → ℕ → ℕ → Option ℕ
unfolding get_htlc
scan_htlcs a s id zero = none
scan_htlcs a s id (suc n) =
    let rest = scan_htlcs a s (id + 1) n in
    elim (get_htlc a id) [
      | none ↦ rest
      | some h ↦ if h.hashlock == s.hash && h.amount == s.amount_tybtc then some id else rest
    ]

-- The ID that is confirmed for the swap, if one is.
unfoldable pub locate_htlc : Answers → Swap → Option ℕ
unfolding get_htlc scan_htlcs get_next_htlc_id
locate_htlc a s = elim (get_htlc a s.htlc_id) [
  | none ↦ none
  | some h ↦
      if h.amount == s.amount_tybtc && h.hashlock == s.hash
      then some s.htlc_id
      else if h.amount == 0
      then none
      else elim (get_next_htlc_id a) [
        | none ↦ none
        | some counter ↦ scan_htlcs a s (add64 s.htlc_id 1) (counter - add64 s.htlc_id 1)
      ]
]

-- `verifyHTLCID`, as the swap that it leaves confirmed.
unfoldable pub verify_htlc_id : Answers → Swap → Option Swap
unfolding locate_htlc
verify_htlc_id a s = elim (locate_htlc a s) [
  | none ↦ none
  | some id ↦ some (record s { htlc_id = id; verified = true })
]

-- `invoiceState == lnd.InvoiceAccepted && s.State == StateInvoiceCreated`
unfoldable pub is_paid : Option InvoiceState → SwapState → Bool
is_paid (some invoice_accepted) invoice_created = true
is_paid _ _ = false

abbrev pub awaits_refund : SwapState → Bool
awaits_refund refund_submitted = true
awaits_refund _ = false

-- The IDs of the unfinished swaps.
unfoldable pub active_ids : List Swap → List ℕ
active_ids [] = []
active_ids (s ∷ swaps) =
    let rest = active_ids swaps in if is_active s.state then s.id ∷ rest else rest
