-- ===== src/Swap/Refunding.antt =====
-- internal/swap/daemon.go: a buy whose buyer does not claim, at its timelock.
use tylium.Prelude.{
  ℕ, ◌≤◌, true, some, List, leb, ◌≡◌, sym, arith, ◌⊎◌, inl, inr, Option-cases, le→leb,
}
use mathlib.Core.Path.{subst}
use tylium.Prelude.Cases.{if-keeps, option-keeps}
use tylium.Types.Order.{signing_hash}
use tylium.Encoding.Tx.{encode_tx}
use tylium.Encoding.Envelope.{encode_envelope, type_tx}
use tylium.Swap.{
  buy, SwapState, refund_submitted, payment_in_flight, is_active, Swap, find, Daemon, DiskOps,
  Answers, update_state,
}
use tylium.Swap.Client.{HtlcInfo, or_zero, get_finalized_htlc}
use tylium.Swap.Submit.{Sent, submit, refund_htlc, refund_data, system_call}
use tylium.Swap.Verify.{is_paid}
use tylium.Swap.Monitor.{
  try_refund, note_payment, check_claim, check_waiting, check_in, check_buy_swap, check_by,
  check_swap,
}
use tylium.Swap.Calls.{Calls-keep, refund_htlc-Calls}
use tylium.Swap.Tracked.{find_set_swap, update_state-found}

-- The node, the signer and the Bitcoin client do what the refund asks of them.
pub record Helps (a : Answers) (addr : ℕ) : Type 0 where
  pub account : (x : ℕ × ℕ) × (a.account addr ≡ some x)
  pub signs : (h : ℕ) → (sig : ℕ) × (a.sign h ≡ some sig)
  pub embeds : (e : List ℕ) → (txid : ℕ) × (a.embed e ≡ some txid)

-- The swap is there with a new state.
abbrev pub In : {D : Type 0} → Swap → SwapState → Daemon D → Type 0
In s st d = find s.id d.swaps ≡ some (record s { state = st })

module _ (sha256 : List ℕ → ℕ) {D : Type 0} (disk : DiskOps D) where
  pub update_state-In :
      (s : Swap) (st : SwapState) (d : Daemon D)
      → find s.id d.swaps ≡ some s
      → In s st (update_state disk s.id st d)
  update_state-In s st d found = subst (In s st) (sym (update_state-found disk s.id st d s found)) (
      if-keeps {B = Daemon D} (λ d'. find s.id d'.swaps ≡ some s') (is_active st)
        (λ e. find_set_swap s' d) (λ e. find_set_swap s' d))
    where
      s' : Swap
      s' = record s { state = st }

  update_state-addr :
      (id : ℕ) (st : SwapState) (d : Daemon D) → (update_state disk id st d).addr ≡ d.addr
  unfolding update_state
  update_state-addr id st d = elim (Option-cases (find id d.swaps)) [
    | inl e ↦ ground (arith, e)
    | inr (s, e) ↦ ground (arith, e)
  ]

  refund_htlc-sent :
      (a : Answers) (id : ℕ) (d : Daemon D)
      → Helps a d.addr
      → (txid : ℕ) × ((refund_htlc sha256 a id d).0 ≡ some txid)
  unfolding refund_htlc submit
  refund_htlc-sent a id d h =
      let ((nonce, balance), known) = h.account in
      let tx = system_call d.addr nonce 0 1 100000 (refund_data id) in
      let (sig, signed) = h.signs (signing_hash sha256 tx) in
      let (txid, out) =
        h.embeds (encode_envelope type_tx (encode_tx (record tx { signature = sig }))) in
      (txid, ground (arith, known, signed, out))

  pub check_by-known :
      (seen a : Answers) (s : Swap) (d : Daemon D)
      → find s.id d.swaps ≡ some s
      → s.direction ≡ buy
      → (s.verified ≡ true) ⊎ (s.state ≡ refund_submitted)
      → check_swap sha256 disk seen a s.id d ≡ check_in sha256 disk s.state a s d
  unfolding check_swap check_by check_buy_swap
  check_by-known seen a s d found way known = elim known [
    | inl v ↦ ground (arith, found, way, v)
    | inr waits ↦ ground (arith, found, way, waits)
  ]

  try_refund-In :
      (a : Answers) (s : Swap) (d : Daemon D)
      → find s.id d.swaps ≡ some s
      → Helps a d.addr
      → s.timelock ≤ or_zero a.height
      → In s refund_submitted (try_refund sha256 disk a s d)
  unfolding try_refund
  try_refund-In a s d found h late =
      if-keeps P (leb s.timelock (or_zero a.height))
        (λ e.
          option-keeps P sent.0
            (λ f. absurd (ground (arith, f, (refund_htlc-sent a s.htlc_id d h).1)))
            (λ txid f. update_state-In s refund_submitted sent.1 (
              Calls-keep (λ d'. find s.id d'.swaps ≡ some s) (λ e d' g. g) d sent.1
                (refund_htlc-Calls sha256 a s.htlc_id d) found)))
        (λ e. absurd (ground (arith, e, le→leb s.timelock (or_zero a.height) late)))
    where
      P : Daemon D → Type 0
      P d' = In s refund_submitted d'

      sent : Sent D
      sent = refund_htlc sha256 a s.htlc_id d

  check_claim-In :
      (a : Answers) (s : Swap) (d : Daemon D) (h : HtlcInfo)
      → find s.id d.swaps ≡ some s
      → Helps a d.addr
      → s.timelock ≤ or_zero a.height
      → get_finalized_htlc a s.htlc_id ≡ some (some h)
      → h.status ≡ 0
      → In s refund_submitted (check_claim sha256 disk a s d)
  unfolding check_claim
  check_claim-In a s d h found helps late final pending =
      subst (In s refund_submitted) {x = try_refund sha256 disk a s d}
        {y = check_claim sha256 disk a s d} (ground (arith, final, pending))
        (try_refund-In a s d found helps late)

  pub check_waiting-In :
      (a : Answers) (s : Swap) (d : Daemon D) (h : HtlcInfo)
      → find s.id d.swaps ≡ some s
      → Helps a d.addr
      → s.timelock ≤ or_zero a.height
      → get_finalized_htlc a s.htlc_id ≡ some (some h)
      → h.status ≡ 0
      → In s refund_submitted (check_waiting sha256 disk a s d)
  unfolding check_waiting note_payment
  check_waiting-In a s d h found helps late final pending =
      if-keeps {B = Swap × Daemon D}
        (λ x. In s refund_submitted (check_claim sha256 disk a x.0 x.1))
        (is_paid (a.lookup_invoice s.hash) s.state)
        (λ e.
          check_claim-In a (record s { state = payment_in_flight }) noted h
            (update_state-In s payment_in_flight d found)
            (subst (Helps a) (sym (update_state-addr s.id payment_in_flight d)) helps) late final
            pending)
        (λ e. check_claim-In a s d h found helps late final pending)
    where
      noted : Daemon D
      noted = update_state disk s.id payment_in_flight d
