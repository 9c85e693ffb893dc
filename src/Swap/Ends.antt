-- ===== src/Swap/Ends.antt =====
-- internal/swap/daemon.go: a buy whose buyer does not claim, from the timelock to its end.
use tylium.Prelude.{
  ℕ, ◌≤◌, true, false, none, some, List, ◌≡◌, refl, sym, ap, ◌∙◌, arith, ◌⊎◌, inl, inr, ==_self,
}
use mathlib.Core.Path.{subst}
use tylium.Swap.{
  buy, SwapState, refund_submitted, invoice_created, payment_in_flight, settled, refunded,
  is_active, Swap, find, Daemon, DiskOps, Answers, cancel_invoice, settle_invoice, update_state,
  act, set_swap,
}
use tylium.Swap.Client.{HtlcInfo, or_zero, get_finalized_htlc}
use tylium.Swap.Monitor.{settle_buy, check_refund, check_waiting, check_in, check_swap}
use tylium.Swap.Tracked.{find_set_swap, update_state-found}
use tylium.Swap.Refunding.{Helps, In, update_state-In, check_by-known, check_waiting-In}

-- The state and the mark of a swap that has ended.
pub record Ended {D : Type 0} (s : Swap) (st : SwapState) (d : Daemon D) : Type 0 where
  pub swap : Swap
  pub found : find s.id d.swaps ≡ some swap
  pub state : swap.state ≡ st
  pub free : d.active_hashes s.hash ≡ none

module _ (sha256 : List ℕ → ℕ) {D : Type 0} (disk : DiskOps D) where
  update_state-Ended :
      (s : Swap) (st : SwapState) (d : Daemon D)
      → find s.id d.swaps ≡ some s
      → is_active st ≡ false
      → Ended s st (update_state disk s.id st d)
  update_state-Ended s st d found over = record {
    swap = record s { state = st };
    found = update_state-In sha256 disk s st d found;
    state = refl;
    free =
        ap (λ d'. d'.active_hashes s.hash) (update_state-found disk s.id st d s found)
        ∙ ground (arith, over, ==_self s.hash);
  }

  refund_submitted-Ended :
      (seen a : Answers) (s : Swap) (d : Daemon D) (h : HtlcInfo)
      → find s.id d.swaps ≡ some s
      → s.direction ≡ buy
      → s.state ≡ refund_submitted
      → get_finalized_htlc a s.htlc_id ≡ some (some h)
      → (h.status ≡ 2 → Ended s refunded (check_swap sha256 disk seen a s.id d))
        × (h.status ≡ 1
            → a.settles h.preimage ≡ true
            → Ended s settled (check_swap sha256 disk seen a s.id d))
  unfolding check_in check_refund settle_buy
  refund_submitted-Ended seen a s d h found way waits final = (
    λ refunded_there.
        subst (Ended s refunded) {x = update_state disk s.id refunded cancelled}
          {y = check_swap sha256 disk seen a s.id d}
          (sym (known ∙ ground (arith, waits, final, refunded_there)))
          (update_state-Ended s refunded cancelled found refl),
    λ claimed_there settles.
        subst (Ended s settled) {x = update_state disk s.id settled paid}
          {y = check_swap sha256 disk seen a s.id d}
          (sym (known ∙ ground (arith, waits, final, claimed_there, settles)))
          (record { swap = over.swap; found = over.found; state = over.state; free = over.free }),
  )
    where
      known : check_swap sha256 disk seen a s.id d ≡ check_in sha256 disk s.state a s d
      known = check_by-known sha256 disk seen a s d found way (inr waits)

      cancelled : Daemon D
      cancelled = act (cancel_invoice s.hash) d

      s' : Swap
      s' = record s { preimage = h.preimage }

      paid : Daemon D
      paid = set_swap s' (act (settle_invoice h.preimage) d)

      over : Ended s' settled (update_state disk s.id settled paid)
      over =
          update_state-Ended s' settled paid (find_set_swap s' (act (settle_invoice h.preimage) d))
            refl

  expired-In :
      (seen a : Answers) (s : Swap) (d : Daemon D) (h : HtlcInfo)
      → find s.id d.swaps ≡ some s
      → s.direction ≡ buy
      → s.verified ≡ true
      → (s.state ≡ invoice_created) ⊎ (s.state ≡ payment_in_flight)
      → Helps a d.addr
      → s.timelock ≤ or_zero a.height
      → get_finalized_htlc a s.htlc_id ≡ some (some h)
      → h.status ≡ 0
      → In s refund_submitted (check_swap sha256 disk seen a s.id d)
  unfolding check_in
  expired-In seen a s d h found way verified waits helps late final pending =
      subst (In s refund_submitted) {x = check_waiting sha256 disk a s d}
        {y = check_swap sha256 disk seen a s.id d}
        (sym (check_by-known sha256 disk seen a s d found way (inl verified) ∙ waiting waits))
        (check_waiting-In sha256 disk a s d h found helps late final pending)
    where
      waiting :
          (s.state ≡ invoice_created) ⊎ (s.state ≡ payment_in_flight)
          → check_in sha256 disk s.state a s d ≡ check_waiting sha256 disk a s d
      waiting (inl e) = ground (arith, e)
      waiting (inr e) = ground (arith, e)

  -- A buy with a confirmed HTLC that is finalized as pending at its timelock ends with the second
  -- check, if the calls for the refund succeed at the first: as refunded if the HTLC is finalized as
  -- refunded by then, as settled if it is finalized as claimed and the invoice can be settled. Its
  -- hash is then free.
  pub check_swap-Ended :
      (seen a seen' a' : Answers) (s : Swap) (d : Daemon D) (h h' : HtlcInfo)
      → find s.id d.swaps ≡ some s
      → s.direction ≡ buy
      → s.verified ≡ true
      → (s.state ≡ invoice_created) ⊎ (s.state ≡ payment_in_flight)
      → Helps a d.addr
      → s.timelock ≤ or_zero a.height
      → get_finalized_htlc a s.htlc_id ≡ some (some h)
      → h.status ≡ 0
      → get_finalized_htlc a' s.htlc_id ≡ some (some h')
      → (h'.status ≡ 2
          → Ended s refunded
              (check_swap sha256 disk seen' a' s.id (check_swap sha256 disk seen a s.id d)))
        × (h'.status ≡ 1
            → a'.settles h'.preimage ≡ true
            → Ended s settled
                (check_swap sha256 disk seen' a' s.id (check_swap sha256 disk seen a s.id d)))
  check_swap-Ended seen a seen' a' s d h h' found way verified waits helps late final pending
        final' =
      let d' = check_swap sha256 disk seen a s.id d in
      let s' : Swap = record s { state = refund_submitted } in
      let (back, on) =
        refund_submitted-Ended seen' a' s' d' h'
          (expired-In seen a s d h found way verified waits helps late final pending) way refl
          final' in
      (
        λ e.
            let over = back e in
            record { swap = over.swap; found = over.found; state = over.state; free = over.free },
        λ e p.
            let over = on e p in
            record { swap = over.swap; found = over.found; state = over.state; free = over.free },
      )
