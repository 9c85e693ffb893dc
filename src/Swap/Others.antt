-- ===== src/Swap/Others.antt =====
-- internal/swap/daemon.go: what the checks of the monitor leave alone.
use tylium.Prelude.{
  ℕ, not, ◌&&◌, Option, none, some, List, [], ◌∷◌, ◌==◌, leb, ◌≡◌, ◌≢◌, sym, ap, ◌∙◌, arith, inl,
  inr, Bool-cases, Option-cases, ==→eq, ==_ne,
}
use mathlib.Core.Path.{subst}
use tylium.Prelude.Cases.{if-keeps, option-keeps}
use tylium.Swap.{
  Direction, buy, sell, SwapState, refund_submitted, invoice_created, payment_in_flight, claimed,
  settled, refunded, Swap, find, Daemon, DiskOps, Answers, cancel_invoice, settle_invoice,
  update_state, act, set_swap, persist,
}
use tylium.Swap.Client.{HtlcInfo, or_zero, get_htlc, get_finalized_htlc}
use tylium.Swap.Submit.{Sent, claim_htlc, refund_htlc}
use tylium.Swap.Verify.{verify_htlc_id, is_paid, awaits_refund}
use tylium.Swap.Monitor.{
  settle_claim, settle_buy, check_refund, try_refund, note_payment, check_claim, check_waiting,
  check_in, check_buy_swap, retry_in, check_sell_swap, check_by, check_swap, check_all,
}
use tylium.Swap.Calls.{Calls-keep, claim_htlc-Calls, refund_htlc-Calls}
use tylium.Swap.Tracked.{find-put, find-id}

module _ (sha256 : List ℕ → ℕ) {D : Type 0} (disk : DiskOps D) where
  -- The entry under `id` is `r`.
  module _ (id : ℕ) (r : Option Swap) where
    abbrev Has : Daemon D → Type 0
    Has d = find id d.swaps ≡ r

    set_swap-Has : (s : Swap) (d : Daemon D) → s.id ≢ id → Has d → Has (set_swap s d)
    set_swap-Has s d other h = ground (arith, find-put id s d.swaps, ==_ne s.id id other, h)

    update_state-Has :
        (j : ℕ) (st : SwapState) (d : Daemon D) → j ≢ id → Has d → Has (update_state disk j st d)
    unfolding update_state
    update_state-Has j st d other h = elim (Option-cases (find j d.swaps)) [
      | inl e ↦ ground (arith, e, h)
      | inr (s, e) ↦ ground (
        arith,
        e,
        set_swap-Has (record s { state = st }) d
            (λ same. other (sym (find-id j d.swaps s e) ∙ same)) h,
      )
    ]

    sent-Has :
        (j : ℕ) (st : SwapState) (x : Sent D)
        → j ≢ id
        → Has x.1
        → Has (elim x.0 [ none ↦ x.1 | some txid ↦ update_state disk j st x.1 ])
    sent-Has j st (none, d) other h = h
    sent-Has j st (some txid, d) other h = update_state-Has j st d other h

    settle_claim-Has :
        (a : Answers) (s : Swap) (preimage : ℕ) (d : Daemon D)
        → s.id ≢ id
        → Has d
        → Has (settle_claim sha256 disk a s preimage d)
    unfolding settle_claim
    settle_claim-Has a s preimage d other h =
        let x = claim_htlc sha256 a s.htlc_id preimage d in
        sent-Has s.id settled x other
          (Calls-keep Has (λ e d' g. g) d x.1 (claim_htlc-Calls sha256 a s.htlc_id preimage d) h)

    try_refund-Has :
        (a : Answers) (s : Swap) (d : Daemon D)
        → s.id ≢ id
        → Has d
        → Has (try_refund sha256 disk a s d)
    unfolding try_refund
    try_refund-Has a s d other h =
        let x = refund_htlc sha256 a s.htlc_id d in
        if-keeps Has (leb s.timelock (or_zero a.height))
          (λ e.
            sent-Has s.id refund_submitted x other
              (Calls-keep Has (λ e d' g. g) d x.1 (refund_htlc-Calls sha256 a s.htlc_id d) h))
          (λ e. h)

    settle_buy-Has :
        (a : Answers) (s : Swap) (info : HtlcInfo) (d : Daemon D)
        → s.id ≢ id
        → Has d
        → Has (settle_buy sha256 disk a s info d)
    unfolding settle_buy
    settle_buy-Has a s info d other h =
        let asked = act (settle_invoice info.preimage) d in
        let known : Swap = record s { preimage = info.preimage } in
        if-keeps {B = Daemon D} Has (a.settles info.preimage)
          (λ e.
            update_state-Has s.id settled (set_swap known asked) other
              (set_swap-Has known asked other h))
          (λ e. h)

    check_refund-Has :
        (a : Answers) (s : Swap) (d : Daemon D)
        → s.id ≢ id
        → Has d
        → Has (check_refund sha256 disk a s d)
    unfolding check_refund
    check_refund-Has a s d other h =
        option-keeps Has (get_finalized_htlc a s.htlc_id) (λ e. h)
          λ o e.
            option-keeps Has o (λ e. h)
              λ info e.
                if-keeps Has (info.status == 2)
                  (λ e. update_state-Has s.id refunded (act (cancel_invoice s.hash) d) other h)
                  (λ e.
                    if-keeps Has (info.status == 1) (λ e. settle_buy-Has a s info d other h)
                      (λ e. h))

    check_claim-Has :
        (a : Answers) (s : Swap) (d : Daemon D)
        → s.id ≢ id
        → Has d
        → Has (check_claim sha256 disk a s d)
    unfolding check_claim
    check_claim-Has a s d other h =
        option-keeps Has (get_finalized_htlc a s.htlc_id) (λ e. h)
          λ o e.
            option-keeps Has o
              (λ e.
                option-keeps Has (get_htlc a s.htlc_id) (λ e. h)
                  λ info e.
                    if-keeps Has (info.status == 0) (λ e. try_refund-Has a s d other h) (λ e. h))
              λ info e.
                if-keeps Has (info.status == 1) (λ e. settle_buy-Has a s info d other h)
                  (λ e.
                    if-keeps Has (info.status == 0) (λ e. try_refund-Has a s d other h) (λ e. h))

    check_waiting-Has :
        (a : Answers) (s : Swap) (d : Daemon D)
        → s.id ≢ id
        → Has d
        → Has (check_waiting sha256 disk a s d)
    unfolding check_waiting note_payment
    check_waiting-Has a s d other h =
        if-keeps {B = Swap × Daemon D} (λ x. Has (check_claim sha256 disk a x.0 x.1))
          (is_paid (a.lookup_invoice s.hash) s.state)
          (λ e.
            check_claim-Has a (record s { state = payment_in_flight })
              (update_state disk s.id payment_in_flight d) other
              (update_state-Has s.id payment_in_flight d other h))
          (λ e. check_claim-Has a s d other h)

    check_in-Has :
        (st : SwapState) (a : Answers) (s : Swap) (d : Daemon D)
        → s.id ≢ id
        → Has d
        → Has (check_in sha256 disk st a s d)
    unfolding check_in
    check_in-Has refund_submitted a s d other h = check_refund-Has a s d other h
    check_in-Has invoice_created a s d other h = check_waiting-Has a s d other h
    check_in-Has payment_in_flight a s d other h = check_waiting-Has a s d other h
    check_in-Has _ a s d other h = h

    retry_in-Has :
        (st : SwapState) (a : Answers) (s : Swap) (d : Daemon D)
        → s.id ≢ id
        → Has d
        → Has (retry_in sha256 disk st a s d)
    unfolding retry_in
    retry_in-Has claimed a s d other h =
        if-keeps Has (s.preimage == 0) (λ e. h) λ e. settle_claim-Has a s s.preimage d other h
    retry_in-Has _ a s d other h = h

    verify_htlc_id-id : (a : Answers) (s s' : Swap) → verify_htlc_id a s ≡ some s' → s'.id ≡ s.id
    unfolding verify_htlc_id
    verify_htlc_id-id a s s' e = ground (arith, e)

    check_by-Has :
        (w : Direction) (seen a : Answers) (s : Swap) (d : Daemon D)
        → s.id ≢ id
        → Has d
        → Has (check_by sha256 disk w seen a s d)
    unfolding check_by check_buy_swap check_sell_swap
    check_by-Has sell seen a s d other h = retry_in-Has s.state a s d other h
    check_by-Has buy seen a s d other h =
        if-keeps Has (not s.verified && not (awaits_refund s.state))
          (λ e.
            option-keeps Has (verify_htlc_id seen s) (λ f. h)
              λ s' f.
                let other' : s'.id ≢ id =
                  λ same. other (sym (verify_htlc_id-id seen s s' f) ∙ same) in
                check_in-Has s'.state a s' (persist disk (set_swap s' d)) other'
                  (set_swap-Has s' d other' h))
          (λ e. check_in-Has s.state a s d other h)

    pub check_swap-Has :
        (seen a : Answers) (j : ℕ) (d : Daemon D)
        → j ≢ id
        → Has d
        → Has (check_swap sha256 disk seen a j d)
    unfolding check_swap
    check_swap-Has seen a j d other h =
        option-keeps Has (find j d.swaps) (λ e. h)
          λ s e.
            check_by-Has s.direction seen a s d (λ same. other (sym (find-id j d.swaps s e) ∙ same))
              h

  check_swap-stuck :
      (seen a : Answers) (s : Swap) (d : Daemon D)
      → s.direction ≡ sell
      → s.state ≡ payment_in_flight
      → find s.id d.swaps ≡ some s
      → check_swap sha256 disk seen a s.id d ≡ d
  unfolding check_swap check_by check_sell_swap retry_in
  check_swap-stuck seen a s d way waits found = ground (arith, way, waits, found)

  -- The checks of the monitor leave a sell as it is while its payment is in flight, whatever swaps
  -- they look at and whatever is answered.
  pub check_all-stuck :
      (seen a : ℕ → Answers) (ids : List ℕ) (s : Swap) (d : Daemon D)
      → s.direction ≡ sell
      → s.state ≡ payment_in_flight
      → find s.id d.swaps ≡ some s
      → find s.id (check_all sha256 disk seen a ids d).swaps ≡ some s
  unfolding check_all
  check_all-stuck seen a [] s d way waits found = found
  check_all-stuck seen a (id ∷ ids) s d way waits found =
      check_all-stuck seen a ids s (check_swap sha256 disk (seen id) (a id) id d) way waits
        (elim (Bool-cases (id == s.id)) [
          | inl same ↦
              subst (λ j. find s.id (check_swap sha256 disk (seen id) (a id) j d).swaps ≡ some s)
                (sym (==→eq id s.id same))
                (ap (λ d'. find s.id d'.swaps)
                    (check_swap-stuck (seen id) (a id) s d way waits found)
                  ∙ found)
          | inr apart ↦
              check_swap-Has s.id (some s) (seen id) (a id) id d
                (λ same. ground (arith, apart, same)) found
        ])
