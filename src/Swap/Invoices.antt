-- ===== src/Swap/Invoices.antt =====
-- internal/swap/daemon.go: what a check of a buy asks of the Lightning node and of the chain.
use tylium.Prelude.{
  ℕ, ◌∙◌, ◌≤◌, Bool, true, false, not, ◌&&◌, some, List, ◌∷◌, ◌==◌, leb, ◌≡◌, refl, sym, ap, arith,
  ◌⊎◌, inl, inr, Option-cases, ==→eq, leb→le,
}
use mathlib.Core.Path.{subst}
use tylium.Prelude.Cases.{if-keeps, option-keeps}
use tylium.Swap.{
  SwapState, refund_submitted, invoice_created, payment_in_flight, settled, refunded, Swap, find,
  Daemon, DiskOps, Answers, Action, cancel_invoice, settle_invoice, embed_envelope, update_state,
  act, set_swap, persist,
}
use tylium.Swap.Client.{HtlcInfo, or_zero, get_htlc, get_finalized_htlc}
use tylium.Swap.Submit.{Sent, refund_htlc}
use tylium.Swap.Verify.{locate_htlc, verify_htlc_id, is_paid, awaits_refund}
use tylium.Swap.Monitor.{
  settle_buy, check_refund, try_refund, note_payment, check_claim, check_waiting, check_in,
  check_buy_swap,
}
use tylium.Swap.Located.{Matches, locate_htlc-Matches}
use tylium.Swap.Calls.{Calls, silent, embeds, refund_htlc-Calls}

-- The actions behind a check of a swap in the state `st` with the HTLC `id`, from those before it.
pub data Asked (a : Answers) (st : SwapState) (hash timelock id : ℕ) (old : List Action)
    : List Action → Type 0 where
  nothing : Asked a st hash timelock id old old
  cancels :
      (h : HtlcInfo)
      → st ≡ refund_submitted
      → get_finalized_htlc a id ≡ some (some h)
      → h.status ≡ 2
      → Asked a st hash timelock id old (cancel_invoice hash ∷ old)
  settles :
      (h : HtlcInfo)
      → get_finalized_htlc a id ≡ some (some h)
      → h.status ≡ 1
      → Asked a st hash timelock id old (settle_invoice h.preimage ∷ old)
  refunds :
      (envelope : List ℕ)
      → timelock ≤ or_zero a.height
      → Asked a st hash timelock id old (embed_envelope envelope ∷ old)

abbrev pub Did : Answers → Swap → ℕ → List Action → List Action → Type 0
Did a s id old new = Asked a s.state s.hash s.timelock id old new

-- What a check of a buy has done, and how it knows the HTLC: the ID is confirmed already, or it needs
-- no confirmation while a refund is under way, or the HTLC there has been read and is the swap's.
pub data CheckedBuy (seen a : Answers) (s : Swap) (old new : List Action) : Type 0 where
  unconfirmed : new ≡ old → CheckedBuy seen a s old new
  confirmed :
      (s.verified ≡ true) ⊎ (s.state ≡ refund_submitted)
      → Did a s s.htlc_id old new
      → CheckedBuy seen a s old new
  located : (id : ℕ) → Matches seen s id → Did a s id old new → CheckedBuy seen a s old new

module _ (sha256 : List ℕ → ℕ) {D : Type 0} (disk : DiskOps D) where
  update_state-actions :
      (id : ℕ) (st : SwapState) (d : Daemon D) → (update_state disk id st d).actions ≡ d.actions
  unfolding update_state
  update_state-actions id st d = elim (Option-cases (find id d.swaps)) [
    | inl e ↦ ground (arith, e)
    | inr (s, e) ↦ ground (arith, e)
  ]

  -- A new state asks for nothing.
  update_state-Did :
      (a : Answers) (s : Swap) (old : List Action) (id : ℕ) (st : SwapState) (d : Daemon D)
      → Did a s s.htlc_id old d.actions
      → Did a s s.htlc_id old (update_state disk id st d).actions
  update_state-Did a s old id st d f =
      subst (Did a s s.htlc_id old) (sym (update_state-actions id st d)) f

  settle_buy-Did :
      (a : Answers) (s : Swap) (h : HtlcInfo) (d : Daemon D)
      → get_finalized_htlc a s.htlc_id ≡ some (some h)
      → h.status ≡ 1
      → Did a s s.htlc_id d.actions (settle_buy sha256 disk a s h d).actions
  unfolding settle_buy
  settle_buy-Did a s h d final claimed =
      if-keeps {B = Daemon D} (λ d'. Did a s s.htlc_id d.actions d'.actions) (a.settles h.preimage)
        (λ e.
          update_state-Did a s d.actions s.id settled
            (set_swap (record s { preimage = h.preimage }) (act (settle_invoice h.preimage) d))
            (settles h final claimed))
        (λ e. settles h final claimed)

  called-Did :
      (a : Answers) (s : Swap) (d d' : Daemon D)
      → s.timelock ≤ or_zero a.height
      → Calls d d'
      → Did a s s.htlc_id d.actions d'.actions
  called-Did a s d d' late silent = nothing
  called-Did a s d d' late (embeds e) = refunds e late

  try_refund-Did :
      (a : Answers) (s : Swap) (d : Daemon D)
      → Did a s s.htlc_id d.actions (try_refund sha256 disk a s d).actions
  unfolding try_refund
  try_refund-Did a s d =
      if-keeps P (leb s.timelock (or_zero a.height))
        (λ e.
          option-keeps P sent.0 (λ f. asked e)
            (λ x f. update_state-Did a s d.actions s.id refund_submitted sent.1 (asked e)))
        (λ e. nothing)
    where
      P : Daemon D → Type 0
      P d' = Did a s s.htlc_id d.actions d'.actions

      sent : Sent D
      sent = refund_htlc sha256 a s.htlc_id d

      asked : leb s.timelock (or_zero a.height) ≡ true → P sent.1
      asked e =
          called-Did a s d sent.1 (leb→le s.timelock (or_zero a.height) e)
            (refund_htlc-Calls sha256 a s.htlc_id d)

  check_refund-Did :
      (a : Answers) (s : Swap) (d : Daemon D)
      → s.state ≡ refund_submitted
      → Did a s s.htlc_id d.actions (check_refund sha256 disk a s d).actions
  unfolding check_refund
  check_refund-Did a s d waits =
      option-keeps P (get_finalized_htlc a s.htlc_id) (λ e. nothing)
        λ o e.
          option-keeps P o (λ f. nothing)
            λ h f.
              if-keeps P (h.status == 2)
                (λ g.
                  update_state-Did a s d.actions s.id refunded (act (cancel_invoice s.hash) d)
                    (cancels h waits (e ∙ ap some f) (==→eq h.status 2 g)))
                (λ g.
                  if-keeps P (h.status == 1)
                    (λ k. settle_buy-Did a s h d (e ∙ ap some f) (==→eq h.status 1 k))
                    (λ k. nothing))
    where
      P : Daemon D → Type 0
      P d' = Did a s s.htlc_id d.actions d'.actions

  check_claim-Did :
      (a : Answers) (s : Swap) (d : Daemon D)
      → Did a s s.htlc_id d.actions (check_claim sha256 disk a s d).actions
  unfolding check_claim
  check_claim-Did a s d =
      option-keeps P (get_finalized_htlc a s.htlc_id) (λ e. nothing)
        λ o e.
          option-keeps P o
            (λ f.
              option-keeps P (get_htlc a s.htlc_id) (λ g. nothing)
                λ h g. if-keeps P (h.status == 0) (λ k. try_refund-Did a s d) (λ k. nothing))
            λ h f.
              if-keeps P (h.status == 1)
                (λ k. settle_buy-Did a s h d (e ∙ ap some f) (==→eq h.status 1 k))
                (λ k. if-keeps P (h.status == 0) (λ l. try_refund-Did a s d) (λ l. nothing))
    where
      P : Daemon D → Type 0
      P d' = Did a s s.htlc_id d.actions d'.actions

  -- A check that finds the invoice paid goes on with the new state, in which nothing is cancelled.
  in_flight-Did :
      (a : Answers) (s : Swap) (id : ℕ) (old new : List Action)
      → Did a (record s { state = payment_in_flight }) id old new
      → Did a s id old new
  in_flight-Did a s id old new nothing = nothing
  in_flight-Did a s id old new (cancels h waits final over) = absurd (ground (arith, waits))
  in_flight-Did a s id old new (settles h final over) = settles h final over
  in_flight-Did a s id old new (refunds e late) = refunds e late

  check_waiting-Did :
      (a : Answers) (s : Swap) (d : Daemon D)
      → Did a s s.htlc_id d.actions (check_waiting sha256 disk a s d).actions
  unfolding check_waiting note_payment
  check_waiting-Did a s d =
      if-keeps {B = Swap × Daemon D}
        (λ x. Did a s s.htlc_id d.actions (check_claim sha256 disk a x.0 x.1).actions)
        (is_paid (a.lookup_invoice s.hash) s.state)
        (λ e. in_flight-Did a s s.htlc_id d.actions _ (
          subst
            (λ old.
              Did a (record s { state = payment_in_flight }) s.htlc_id old
                (check_claim sha256 disk a (record s { state = payment_in_flight })
                  (update_state disk s.id payment_in_flight d)).actions)
            (update_state-actions s.id payment_in_flight d)
            (check_claim-Did a (record s { state = payment_in_flight })
              (update_state disk s.id payment_in_flight d))))
        (λ e. check_claim-Did a s d)

  check_in-Did :
      (st : SwapState) (a : Answers) (s : Swap) (d : Daemon D)
      → s.state ≡ st
      → Did a s s.htlc_id d.actions (check_in sha256 disk st a s d).actions
  unfolding check_in
  check_in-Did refund_submitted a s d same = check_refund-Did a s d same
  check_in-Did invoice_created a s d same = check_waiting-Did a s d
  check_in-Did payment_in_flight a s d same = check_waiting-Did a s d
  check_in-Did _ a s d same = nothing

  -- A check of a buy asks for one thing at most, and that for a swap whose HTLC it knows: it cancels
  -- the invoice only while a refund is under way, behind a finalized record of the HTLC as refunded;
  -- it settles an invoice only with the preimage in a finalized record of the HTLC as claimed; and it
  -- sends a refund only at a height that is not below the timelock. An HTLC that it has just found
  -- has the hash and the amount of the swap.
  pub check_buy_swap-CheckedBuy :
      (seen a : Answers) (s : Swap) (d : Daemon D)
      → CheckedBuy seen a s d.actions (check_buy_swap sha256 disk seen a s d).actions
  unfolding check_buy_swap verify_htlc_id
  check_buy_swap-CheckedBuy seen a s d =
      if-keeps P (not s.verified && not (awaits_refund s.state))
        (λ e. option-keeps P (verify_htlc_id seen s) (λ f. unconfirmed refl) λ s' f. checked s' f)
        (λ e. confirmed (knows s.verified s.state e) (check_in-Did s.state a s d refl))
    where
      P : Daemon D → Type 0
      P d' = CheckedBuy seen a s d.actions d'.actions

      checked :
          (s' : Swap)
          → verify_htlc_id seen s ≡ some s'
          → P (check_in sha256 disk s'.state a s' (persist disk (set_swap s' d)))
      checked s' f = elim (Option-cases (locate_htlc seen s)) [
        | inl none_found ↦ absurd (ground (arith, none_found, f))
        | inr (id, g) ↦
            let s'' : Swap = record s { htlc_id = id; verified = true } in
            subst (λ u. P (check_in sha256 disk u.state a u (persist disk (set_swap u d))))
              {x = s''} {y = s'} (ground (arith, g, f))
              (located id (locate_htlc-Matches seen s id g)
                (check_in-Did s.state a s'' (persist disk (set_swap s'' d)) refl))
      ]

      knows :
          (v : Bool) (st : SwapState)
          → (not v && not (awaits_refund st)) ≡ false
          → (v ≡ true) ⊎ (st ≡ refund_submitted)
      knows true st e = inl refl
      knows false refund_submitted e = inr refl
      knows false _ e = absurd (ground (arith, e))
