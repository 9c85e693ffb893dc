-- ===== src/Swap/Monitored.antt =====
-- internal/swap/daemon.go: the payment and the checks, over the swaps and their marks.
use tylium.Prelude.{
  ℕ, not, ◌&&◌, Option, none, some, List, ◌∷◌, ◌==◌, ◌≡◌, refl, sym, ap, ◌∙◌, arith, leb,
}
use tylium.Swap.{
  SwapState, Swap, find, is_active, Daemon, DiskOps, Answers, set_swap, settle_invoice,
  cancel_invoice, Direction, buy, sell, payment_in_flight, claimed, settled, invoice_created,
  refunded, refund_submitted, update_state,
}
use tylium.Swap.Client.{HtlcInfo, get_htlc, or_zero, get_finalized_htlc}
use tylium.Swap.Verify.{verify_htlc_id, is_paid, awaits_refund}
use tylium.Swap.Submit.{Sent, claim_htlc, refund_htlc}
use tylium.Swap.Monitor.{
  start_payment, take_payment, settle_claim, settle_buy, check_refund, try_refund, note_payment,
  check_claim, check_waiting, check_in, retry_in, check_by, check_buy_swap, check_sell_swap,
  check_swap,
}
use tylium.Swap.Calls.{Calls, Calls-keep, claim_htlc-Calls, refund_htlc-Calls}
use tylium.Prelude.Cases.{if-keeps, option-keeps}
use tylium.Swap.Tracked.{
  IsTracked, again_Tracked, Current, again_Current, set_swap-Tracked, find_set_swap, find-id,
  set_swap-Current, update_state-Current, update_state-Tracked, fail_swap-Tracked,
}

module _ (sha256 : List ℕ → ℕ) {D : Type 0} (disk : DiskOps D) where
  called-Tracked : (d d' : Daemon D) → Calls d d' → IsTracked d → IsTracked d'
  called-Tracked = Calls-keep IsTracked λ e d t. again_Tracked d _ _ t

  called-Current : (s : Swap) (d d' : Daemon D) → Calls d d' → Current s d → Current s d'
  called-Current s = Calls-keep (Current s) λ e d c. again_Current s d _ _ c

  -- The new state, if the envelope went out.
  sent-Tracked :
      (s : Swap) (st : SwapState) (x : Sent D)
      → Current s x.1
      → IsTracked (elim x.0 [ none ↦ x.1 | some txid ↦ update_state disk s.id st x.1 ])
  sent-Tracked s st (none, d) c = c.tracked
  sent-Tracked s st (some txid, d) c = update_state-Tracked disk s st d c

  settle_claim-Tracked :
      (a : Answers) (s : Swap) (preimage : ℕ) (d : Daemon D)
      → Current s d
      → IsTracked (settle_claim sha256 disk a s preimage d)
  unfolding settle_claim
  settle_claim-Tracked a s preimage d c =
      let x = claim_htlc sha256 a s.htlc_id preimage d in
      sent-Tracked s settled x
        (called-Current s d x.1 (claim_htlc-Calls sha256 a s.htlc_id preimage d) c)

  pub start_payment-Tracked :
      (s : Swap) (d : Daemon D) → Current s d → IsTracked (start_payment sha256 disk s d)
  unfolding start_payment
  start_payment-Tracked s d c =
      again_Tracked (update_state disk s.id payment_in_flight d) _ _
        (update_state-Tracked disk s payment_in_flight d c)

  pub take_payment-Tracked :
      (a : Answers) (s : Swap) (d : Daemon D)
      → Current s d
      → IsTracked (take_payment sha256 disk a s d).1
  unfolding take_payment
  take_payment-Tracked a s d c =
      option-keeps (λ (x : Option ℕ × Daemon D). IsTracked x.1) (a.pays s.invoice)
        (λ e. fail_swap-Tracked disk s d c)
        λ preimage e.
          let known : Swap = record s { preimage = preimage } in
          update_state-Tracked disk known claimed _
            (set_swap-Current s known _ (again_Current s d _ _ c) refl refl c.active)

  pub claim_htlc-Tracked :
      (a : Answers) (htlc_id preimage : ℕ) (d : Daemon D)
      → IsTracked d
      → IsTracked (claim_htlc sha256 a htlc_id preimage d).1
  claim_htlc-Tracked a htlc_id preimage d t =
      called-Tracked d _ (claim_htlc-Calls sha256 a htlc_id preimage d) t

  try_refund-Tracked :
      (a : Answers) (s : Swap) (d : Daemon D)
      → Current s d
      → IsTracked (try_refund sha256 disk a s d)
  unfolding try_refund
  try_refund-Tracked a s d c =
      let x = refund_htlc sha256 a s.htlc_id d in
      if-keeps IsTracked (leb s.timelock (or_zero a.height))
        (λ e.
          sent-Tracked s refund_submitted x
            (called-Current s d x.1 (refund_htlc-Calls sha256 a s.htlc_id d) c))
        (λ e. c.tracked)

  settle_buy-Tracked :
      (a : Answers) (s : Swap) (h : HtlcInfo) (d : Daemon D)
      → Current s d
      → IsTracked (settle_buy sha256 disk a s h d)
  unfolding settle_buy
  settle_buy-Tracked a s h d c =
      let asked = again_Current s d d.disk (settle_invoice h.preimage ∷ d.actions) c in
      let known : Swap = record s { preimage = h.preimage } in
      if-keeps IsTracked (a.settles h.preimage)
        (λ e.
          update_state-Tracked disk known settled _
            (set_swap-Current s known _ asked refl refl c.active))
        (λ e. asked.tracked)

  check_refund-Tracked :
      (a : Answers) (s : Swap) (d : Daemon D)
      → Current s d
      → IsTracked (check_refund sha256 disk a s d)
  unfolding check_refund
  check_refund-Tracked a s d c =
      option-keeps IsTracked (get_finalized_htlc a s.htlc_id) (λ e. c.tracked)
        λ o e.
          option-keeps IsTracked o (λ e. c.tracked)
            λ h e.
              if-keeps IsTracked (h.status == 2)
                (λ e.
                  update_state-Tracked disk s refunded _
                    (again_Current s d d.disk (cancel_invoice s.hash ∷ d.actions) c))
                (λ e.
                  if-keeps IsTracked (h.status == 1) (λ e. settle_buy-Tracked a s h d c)
                    (λ e. c.tracked))

  check_claim-Tracked :
      (a : Answers) (s : Swap) (d : Daemon D)
      → Current s d
      → IsTracked (check_claim sha256 disk a s d)
  unfolding check_claim
  check_claim-Tracked a s d c =
      option-keeps IsTracked (get_finalized_htlc a s.htlc_id) (λ e. c.tracked)
        λ o e.
          option-keeps IsTracked o
            (λ e.
              option-keeps IsTracked (get_htlc a s.htlc_id) (λ e. c.tracked)
                λ h e.
                  if-keeps IsTracked (h.status == 0) (λ e. try_refund-Tracked a s d c)
                    (λ e. c.tracked))
            λ h e.
              if-keeps IsTracked (h.status == 1) (λ e. settle_buy-Tracked a s h d c)
                (λ e.
                  if-keeps IsTracked (h.status == 0) (λ e. try_refund-Tracked a s d c)
                    (λ e. c.tracked))

  note_payment-Current :
      (a : Answers) (s : Swap) (d : Daemon D)
      → Current s d
      → Current (note_payment sha256 disk a s d).0 (note_payment sha256 disk a s d).1
  unfolding note_payment
  note_payment-Current a s d c =
      if-keeps {B = Swap × Daemon D} (λ x. Current x.0 x.1)
        (is_paid (a.lookup_invoice s.hash) s.state)
        (λ e. update_state-Current disk s payment_in_flight d refl c) (λ e. c)

  check_waiting-Tracked :
      (a : Answers) (s : Swap) (d : Daemon D)
      → Current s d
      → IsTracked (check_waiting sha256 disk a s d)
  unfolding check_waiting
  check_waiting-Tracked a s d c =
      let x = note_payment sha256 disk a s d in
      check_claim-Tracked a x.0 x.1 (note_payment-Current a s d c)

  check_in-Tracked :
      (st : SwapState) (a : Answers) (s : Swap) (d : Daemon D)
      → s.state ≡ st
      → IsTracked d
      → find s.id d.swaps ≡ some s
      → IsTracked (check_in sha256 disk st a s d)
  unfolding check_in
  check_in-Tracked refund_submitted a s d same t found =
      check_refund-Tracked a s d (record { tracked = t; found = found; active = ap is_active same })
  check_in-Tracked invoice_created a s d same t found =
      check_waiting-Tracked a s d
        (record { tracked = t; found = found; active = ap is_active same })
  check_in-Tracked payment_in_flight a s d same t found =
      check_waiting-Tracked a s d
        (record { tracked = t; found = found; active = ap is_active same })
  check_in-Tracked _ a s d same t found = t

  verify_htlc_id-same :
      (a : Answers) (s s' : Swap)
      → verify_htlc_id a s ≡ some s'
      → (s'.id ≡ s.id) × (s'.hash ≡ s.hash) × (s'.state ≡ s.state)
  unfolding verify_htlc_id
  verify_htlc_id-same a s s' h = ground (arith, h)

  check_buy_swap-Tracked :
      (seen a : Answers) (s : Swap) (d : Daemon D)
      → IsTracked d
      → find s.id d.swaps ≡ some s
      → IsTracked (check_buy_swap sha256 disk seen a s d)
  unfolding check_buy_swap
  check_buy_swap-Tracked seen a s d t found =
      if-keeps IsTracked (not s.verified && not (awaits_refund s.state))
        (λ e.
          option-keeps IsTracked (verify_htlc_id seen s) (λ e. t)
            λ s' e.
              let (same_id, same_hash, same_state) = verify_htlc_id-same seen s s' e in
              check_in-Tracked s'.state a s' _ refl
                (again_Tracked (set_swap s' d) _ _ (
                  set_swap-Tracked s s' d t found same_id same_hash
                    (λ up. ap is_active (sym same_state) ∙ up)))
                (find_set_swap s' d))
        (λ e. check_in-Tracked s.state a s d refl t found)

  retry_in-Tracked :
      (st : SwapState) (a : Answers) (s : Swap) (d : Daemon D)
      → s.state ≡ st
      → IsTracked d
      → find s.id d.swaps ≡ some s
      → IsTracked (retry_in sha256 disk st a s d)
  unfolding retry_in
  retry_in-Tracked claimed a s d same t found =
      if-keeps IsTracked (s.preimage == 0) (λ e. t)
        λ e.
          settle_claim-Tracked a s s.preimage d
            (record { tracked = t; found = found; active = ap is_active same })
  retry_in-Tracked _ a s d same t found = t

  check_by-Tracked :
      (w : Direction) (seen a : Answers) (s : Swap) (d : Daemon D)
      → IsTracked d
      → find s.id d.swaps ≡ some s
      → IsTracked (check_by sha256 disk w seen a s d)
  unfolding check_by check_sell_swap
  check_by-Tracked buy seen a s d t found = check_buy_swap-Tracked seen a s d t found
  check_by-Tracked sell seen a s d t found = retry_in-Tracked s.state a s d refl t found

  pub check_swap-Tracked :
      (seen a : Answers) (id : ℕ) (d : Daemon D)
      → IsTracked d
      → IsTracked (check_swap sha256 disk seen a id d)
  unfolding check_swap
  check_swap-Tracked seen a id d t =
      option-keeps IsTracked (find id d.swaps) (λ e. t)
        λ s e.
          check_by-Tracked s.direction seen a s d t
            (ap (λ j. find j d.swaps) (find-id id d.swaps s e) ∙ e)
