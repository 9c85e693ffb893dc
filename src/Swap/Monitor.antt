-- ===== src/Swap/Monitor.antt =====
-- internal/swap/daemon.go: the payment of a sell, and the checks of the monitor.
use tylium.Prelude.{ℕ, ◌&&◌, not, Option, none, some, List, [], ◌∷◌, ◌==◌, leb, if◌then◌else◌}
use tylium.Swap.{
  buy, sell, SwapState, invoice_created, payment_in_flight, claimed, settled, refunded,
  refund_submitted, Swap, find, Daemon, Answers, DiskOps, Direction, send_payment, settle_invoice,
  cancel_invoice, act, set_swap, persist, update_state, fail_swap,
}
use tylium.Swap.Client.{HtlcInfo, or_zero, get_htlc, get_finalized_htlc}
use tylium.Swap.Verify.{verify_htlc_id, is_paid, awaits_refund, active_ids}
use tylium.Swap.Submit.{claim_htlc, refund_htlc}

module _ (sha256 : List ℕ → ℕ) {D : Type 0} (disk : DiskOps D) where
  abbrev save_preimage : ℕ → ℕ → Daemon D → Daemon D
  save_preimage htlc_id preimage d = record d {
    disk = elim d.disk [ none ↦ none | some x ↦ some (disk.write_preimage htlc_id preimage x) ];
  }

  -- `executeSell` until the payment is under way.
  unfoldable pub start_payment : Swap → Daemon D → Daemon D
  unfolding update_state
  start_payment s d = act (send_payment s.invoice) (update_state disk s.id payment_in_flight d)

  -- The claim, and the state behind it if it was sent. `checkSellSwap` does the same.
  unfoldable pub settle_claim : Answers → Swap → ℕ → Daemon D → Daemon D
  unfolding claim_htlc update_state
  settle_claim a s preimage d =
      let (sent, d') = claim_htlc sha256 a s.htlc_id preimage d in
      elim sent [ none ↦ d' | some txid ↦ update_state disk s.id settled d' ]

  -- `executeSell` from the answer to the payment until the swap is claimed or failed, with the preimage
  -- of a payment that succeeded; `s` is the swap then.
  unfoldable pub take_payment : Answers → Swap → Daemon D → Option ℕ × Daemon D
  unfolding fail_swap update_state
  take_payment a s d = elim (a.pays s.invoice) [
    | none ↦ (none, fail_swap disk s.id d)
    | some preimage ↦
        let saved = save_preimage s.htlc_id preimage d in
        let known = set_swap (record s { preimage = preimage }) saved in
        (some preimage, update_state disk s.id claimed known)
  ]

  -- The rest of `executeSell`, when nothing else comes in between.
  unfoldable pub end_payment : Answers → Swap → Daemon D → Daemon D
  unfolding take_payment settle_claim
  end_payment a s d =
      let (paid, d') = take_payment a s d in
      elim paid [ none ↦ d' | some preimage ↦ settle_claim a s preimage d' ]

  -- The invoice is settled with the preimage of the HTLC.
  unfoldable pub settle_buy : Answers → Swap → HtlcInfo → Daemon D → Daemon D
  unfolding update_state
  settle_buy a s h d =
      let asked = act (settle_invoice h.preimage) d in
      if a.settles h.preimage
      then update_state disk s.id settled (set_swap (record s { preimage = h.preimage }) asked)
      else asked

  -- While a refund is under way.
  unfoldable pub check_refund : Answers → Swap → Daemon D → Daemon D
  unfolding get_finalized_htlc settle_buy update_state
  check_refund a s d = elim (get_finalized_htlc a s.htlc_id) [
    | some (some h) ↦
        if h.status == 2
        then update_state disk s.id refunded (act (cancel_invoice s.hash) d)
        else if h.status == 1
        then settle_buy a s h d
        else d
    | _ ↦ d
  ]

  -- A height that cannot be read counts as zero.
  unfoldable pub try_refund : Answers → Swap → Daemon D → Daemon D
  unfolding refund_htlc update_state
  try_refund a s d =
      if leb s.timelock (or_zero a.height)
      then (let (sent, d') = refund_htlc sha256 a s.htlc_id d in
          elim sent [ none ↦ d' | some txid ↦ update_state disk s.id refund_submitted d' ])
      else d

  -- The swap and the daemon once the invoice has been looked up.
  unfoldable pub note_payment : Answers → Swap → Daemon D → Swap × Daemon D
  unfolding is_paid update_state
  note_payment a s d =
      if is_paid (a.lookup_invoice s.hash) s.state
      then (record s { state = payment_in_flight }, update_state disk s.id payment_in_flight d)
      else (s, d)

  -- From the first finalized read of a swap that waits for the buyer on.
  unfoldable pub check_claim : Answers → Swap → Daemon D → Daemon D
  unfolding get_finalized_htlc get_htlc settle_buy try_refund
  check_claim a s d = elim (get_finalized_htlc a s.htlc_id) [
    | none ↦ d
    | some none ↦ elim (get_htlc a s.htlc_id) [
      | none ↦ d
      | some h ↦ if h.status == 0 then try_refund a s d else d
    ]
    | some (some h) ↦
        if h.status == 1 then settle_buy a s h d else if h.status == 0 then try_refund a s d else d
  ]

  unfoldable pub check_waiting : Answers → Swap → Daemon D → Daemon D
  unfolding note_payment check_claim
  check_waiting a s d = let x = note_payment a s d in check_claim a x.0 x.1

  -- With an ID that is confirmed, or that needs not be; by the state of the swap.
  unfoldable pub check_in : SwapState → Answers → Swap → Daemon D → Daemon D
  unfolding check_refund check_waiting
  check_in refund_submitted a s d = check_refund a s d
  check_in invoice_created a s d = check_waiting a s d
  check_in payment_in_flight a s d = check_waiting a s d
  check_in _ a s d = d

  -- `seen` answers the calls of the verification.
  unfoldable pub check_buy_swap : Answers → Answers → Swap → Daemon D → Daemon D
  unfolding verify_htlc_id check_in
  check_buy_swap seen a s d =
      if not s.verified && not (awaits_refund s.state)
      then (elim (verify_htlc_id seen s) [
        | none ↦ d
        | some s' ↦ check_in s'.state a s' (persist disk (set_swap s' d))
      ])
      else check_in s.state a s d

  unfoldable pub retry_in : SwapState → Answers → Swap → Daemon D → Daemon D
  unfolding settle_claim
  retry_in claimed a s d = if s.preimage == 0 then d else settle_claim a s s.preimage d
  retry_in _ a s d = d

  unfoldable pub check_sell_swap : Answers → Swap → Daemon D → Daemon D
  unfolding retry_in
  check_sell_swap a s d = retry_in s.state a s d

  unfoldable pub check_by : Direction → Answers → Answers → Swap → Daemon D → Daemon D
  unfolding check_buy_swap check_sell_swap
  check_by buy seen a s d = check_buy_swap seen a s d
  check_by sell seen a s d = check_sell_swap a s d

  -- One swap of the round, as it is when its turn comes.
  unfoldable pub check_swap : Answers → Answers → ℕ → Daemon D → Daemon D
  unfolding find check_by
  check_swap seen a id d = elim (find id d.swaps) [
    | none ↦ d
    | some s ↦ check_by s.direction seen a s d
  ]

  unfoldable pub check_all : (ℕ → Answers) → (ℕ → Answers) → List ℕ → Daemon D → Daemon D
  unfolding check_swap
  check_all seen a [] d = d
  check_all seen a (id ∷ ids) d = check_all seen a ids (check_swap (seen id) (a id) id d)

  -- `checkSwaps`: the unfinished swaps are those at the start of the round, and each has its answers.
  unfoldable pub check_swaps : (ℕ → Answers) → (ℕ → Answers) → Daemon D → Daemon D
  unfolding active_ids check_all
  check_swaps seen a d = check_all seen a (active_ids d.swaps) d
