-- ===== src/Swap/Api.antt =====
-- internal/swap/daemon.go: the HTTP API. JSON gives a request or an error, with its hexadecimal fields
-- decoded; `none` is an error.
use tylium.Prelude.{
  ℕ, Bool, true, not, Option, none, some, List, ◌++◌, [], ◌∷◌, ◌==◌, length, if◌then◌else◌,
}
use tylium.Bytes.{from_be, same_bytes}
use tylium.Swap.{Swap, find, Daemon, Answers, DiskOps}
use tylium.Swap.Requests.{
  SwapError, Reply, accepted, rejected, BuyResponse, init_buy_swap, init_sell_swap,
}

pub record BuyRequest : Type 0 where
  pub hash : Option (List ℕ)
  pub recipient_addr : Option (List ℕ)
  pub amount_tybtc : ℕ

pub record SellRequest : Type 0 where
  pub htlc_id : ℕ
  pub invoice : List ℕ

pub data HttpReply (A : Type 0) : Type 0 where
  replied : A → HttpReply A
  method_not_allowed bad_request unauthorized not_found : HttpReply A
  internal_error : SwapError → HttpReply A

-- Exactly `n` bytes, as the number that they spell.
unfoldable pub sized : ℕ → Option (List ℕ) → Option ℕ
sized n none = none
sized n (some bytes) = if length bytes == n then some (from_be bytes) else none

abbrev to_http : {A N : Type 0} → Reply A N → HttpReply A × N
to_http (accepted a d) = (replied a, d)
to_http (rejected e d) = (internal_error e, d)

module _ (sha256 : List ℕ → ℕ) {D : Type 0} (disk : DiskOps D) where
  unfoldable pub handle_buy :
      Answers → Answers → Bool → Option BuyRequest → Daemon D → HttpReply BuyResponse × Daemon D
  unfolding init_buy_swap sized
  handle_buy checked a is_post none d = (if is_post then bad_request else method_not_allowed, d)
  handle_buy checked a is_post (some req) d =
      if not is_post then (method_not_allowed, d) else elim (sized 32 req.hash) [
        | none ↦ (bad_request, d)
        | some hash ↦ elim (sized 20 req.recipient_addr) [
          | none ↦ (bad_request, d)
          | some recipient ↦
              to_http (init_buy_swap sha256 disk checked a hash recipient req.amount_tybtc d)
        ]
      ]

  unfoldable pub handle_sell :
      Answers → Answers → Bool → Option SellRequest → Daemon D → HttpReply ℕ × Daemon D
  unfolding init_sell_swap
  handle_sell read a is_post none d = (if is_post then bad_request else method_not_allowed, d)
  handle_sell read a is_post (some req) d =
      if not is_post
      then (method_not_allowed, d)
      else to_http (init_sell_swap sha256 disk read a req.htlc_id req.invoice d)

unfoldable pub handle_status : {D : Type 0} → ℕ → Daemon D → HttpReply Swap
unfolding find
handle_status id d = elim (find id d.swaps) [ none ↦ not_found | some s ↦ replied s ]

-- In the order of the map.
unfoldable pub handle_list : {D : Type 0} → Daemon D → HttpReply (List Swap)
handle_list d = replied d.swaps

-- "Bearer "
abbrev bearer : List ℕ
bearer = 66 ∷ 101 ∷ 97 ∷ 114 ∷ 101 ∷ 114 ∷ 32 ∷ []

-- `subtle.ConstantTimeCompare`. The middleware is there only if a key is set.
unfoldable pub authorized : List ℕ → List ℕ → Bool
unfolding same_bytes
authorized [] header = true
authorized (c ∷ key) header = same_bytes header (bearer ++ (c ∷ key))
