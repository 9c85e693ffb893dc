-- ===== src/Swap/Calls.antt =====
-- internal/swap/daemon.go, "HTLC operations": what a call of the HTLC system changes.
use tylium.Prelude.{ℕ, List, arith, Option-cases, inl, inr}
use mathlib.Core.Path.{subst}
use tylium.Types.{Transaction}
use tylium.Types.Order.{signing_hash}
use tylium.Encoding.Tx.{encode_tx}
use tylium.Encoding.Envelope.{encode_envelope, type_tx}
use tylium.Swap.{Daemon, Answers, embed_envelope, act}
use tylium.Swap.Client.{get_next_htlc_id}
use tylium.Swap.Submit.{
  submit, lock_htlc, claim_htlc, refund_htlc, system_call, lock_data, claim_data, refund_data,
}

-- One envelope goes out, or nothing changes.
pub data Calls {D : Type 0} (d : Daemon D) : Daemon D → Type 0 where
  silent : Calls d d
  embeds : (envelope : List ℕ) → Calls d (act (embed_envelope envelope) d)

pub Calls-keep :
    {D : Type 0} (P : Daemon D → Type 0)
    → ((e : List ℕ) (d : Daemon D) → P d → P (act (embed_envelope e) d))
    → (d d' : Daemon D) → Calls d d'
    → P d
    → P d'
Calls-keep P keeps d d' silent p = p
Calls-keep P keeps d d' (embeds e) p = keeps e d p

module _ (sha256 : List ℕ → ℕ) {D : Type 0} (a : Answers) where
  submit-Calls : (tx : Transaction) (d : Daemon D) → Calls d (submit sha256 a tx d).1
  unfolding submit
  submit-Calls tx d = elim (Option-cases (a.sign (signing_hash sha256 tx))) [
    | inl h ↦ subst (Calls d) {x = d} (ground (arith, h)) silent
    | inr (sig, h) ↦
        let e = encode_envelope type_tx (encode_tx (record tx { signature = sig })) in
        subst (Calls d) {x = act (embed_envelope e) d} (ground (arith, h)) (embeds e)
  ]

  pub claim_htlc-Calls :
      (id preimage : ℕ) (d : Daemon D) → Calls d (claim_htlc sha256 a id preimage d).1
  unfolding claim_htlc
  claim_htlc-Calls id preimage d = elim (Option-cases (a.account d.addr)) [
    | inl h ↦ subst (Calls d) {x = d} (ground (arith, h)) silent
    | inr ((nonce, balance), h) ↦
        subst (Calls d)
          {x = (submit sha256 a (system_call d.addr nonce 0 0 0 (claim_data id preimage)) d).1}
          (ground (arith, h)) (submit-Calls _ d)
  ]

  pub refund_htlc-Calls : (id : ℕ) (d : Daemon D) → Calls d (refund_htlc sha256 a id d).1
  unfolding refund_htlc
  refund_htlc-Calls id d = elim (Option-cases (a.account d.addr)) [
    | inl h ↦ subst (Calls d) {x = d} (ground (arith, h)) silent
    | inr ((nonce, balance), h) ↦
        subst (Calls d)
          {x = (submit sha256 a (system_call d.addr nonce 0 1 100000 (refund_data id)) d).1}
          (ground (arith, h)) (submit-Calls _ d)
  ]

  pub lock_htlc-Calls : (r h v t : ℕ) (d : Daemon D) → Calls d (lock_htlc sha256 a r h v t d).1
  unfolding lock_htlc
  lock_htlc-Calls r h v t d = elim (Option-cases (a.account d.addr)) [
    | inl e ↦ subst (Calls d) {x = d} (ground (arith, e)) silent
    | inr ((nonce, balance), e) ↦ elim (Option-cases (get_next_htlc_id a)) [
      | inl f ↦ subst (Calls d) {x = d} (ground (arith, e, f)) silent
      | inr (next, f) ↦
          subst (Calls d)
            {x = (submit sha256 a (system_call d.addr nonce v 1 100000 (lock_data r h t)) d).1}
            (ground (arith, e, f)) (submit-Calls _ d)
    ]
  ]
