-- ===== src/Swap/OnChain.antt =====
-- A lock of the swap daemon (internal/swap/daemon.go) in the executor (internal/executor/htlc.go), and
-- what the daemon then reads of it.
use tylium.Prelude.{ℕ, ◌%◌, ◌^◌, ◌<◌, Option, none, some, List, ◌≡◌, sym, ap, ◌∙◌, arith, ==_self}
use mathlib.Core.Path.{fun_ext}
use tylium.Prelude.Words.{add64}
use tylium.Bytes.{be, from_be}
use tylium.Types.{Transaction, caller_id}
use tylium.State.Ops.{get_balance}
use tylium.State.Ledger.{Ledger, ledger_ops}
use tylium.Executor.Slots.{write_call_data}
use tylium.Executor.Htlc.{base_of, lock, process_htlc, word_bytes, htlc_system_address}
use tylium.Executor.Settle.{Registry}
use tylium.Executor.Execute.{Crypto, run_call}
use tylium.Contracts.Asm.{pack_call_data}
use tylium.Executor.Claims.{system_slot}
use tylium.Executor.Locks.{Opened, lock-Opened, process_htlc-lock}
use tylium.Rpc.{Hex, StateReads}
use tylium.Swap.{Swap, Answers}
use tylium.Swap.Client.{HtlcInfo, htlc_of, or_zero, get_storage, get_htlc}
use tylium.Swap.Submit.{lock_data, system_call}
use tylium.Swap.Verify.{locate_htlc}
use tylium.Swap.CallData.{Called, after_call, lock_data-Called}
use tylium.Swap.Served.{IsHex, served, get_storage-served}

-- The reads of the ledger, of which nothing is finalized.
abbrev pub ledger_reads : (List ℕ → ℕ) → StateReads Ledger
ledger_reads sha256 = record {
  get_account = λ a s. s.view.accounts a;
  get_balance = get_balance (ledger_ops sha256);
  get_storage = λ a k s. (s.view.slots a k, s);
  get_code = λ h s. s.codes h;
  get_finalized_balance = λ a s. none;
  get_finalized_storage = λ a k s. (none, s);
}

-- The record that the daemon reads is that of its lock, and pending.
pub record Mirrors (from to hash value until : ℕ) (a : Answers) (id : ℕ) : Type 0 where
  pub info : HtlcInfo
  pub read : get_htlc a id ≡ some info
  pub sender_id : info.sender_id ≡ caller_id from
  pub recipient_id : info.recipient_id ≡ caller_id to
  pub amount : info.amount ≡ value
  pub hashlock : info.hashlock ≡ hash
  pub timelock : info.timelock ≡ until
  pub status : info.status ≡ 0

module _ (c : Crypto) (hex : Hex) (h : IsHex hex) where
  get_storage-system :
      (a : Answers) (s : Ledger) (slot : ℕ)
      → a.storage ≡ served hex (ledger_reads c.sha256) s
      → slot < 256 ^ 32
      → get_storage a htlc_system_address slot ≡ some (system_slot slot s)
  get_storage-system a s slot same small =
      get_storage-served hex (ledger_reads c.sha256) h a s 1 slot same (omega arith) small

  get_htlc-system :
      (a : Answers) (s : Ledger) (id : ℕ)
      → a.storage ≡ served hex (ledger_reads c.sha256) s
      → get_htlc a id ≡ some (htlc_of (λ i. system_slot (add64 (base_of id) i) s))
  unfolding get_htlc
  get_htlc-system a s id same =
      let read : (i : ℕ)
          → get_storage a 1 (add64 (base_of id) i) ≡ some (system_slot (add64 (base_of id) i) s) =
        λ i. get_storage-system a s (add64 (base_of id) i) same (omega arith) in
      ap
        (λ (o : ℕ → Option ℕ). elim (o 0) [
          | none ↦ none
          | some v ↦ some (htlc_of (λ i. or_zero (o i)))
        ])
        (fun_ext read)

  -- The call behind its data.
  module _ (registry registry' : Registry)
      (height intrinsic used from nonce value gas_price gas_limit recipient hash timelock : ℕ)
      (s s' : Ledger)
      (ran : run_call c
          (ledger_ops c.sha256)
          registry
          height
          (system_call from nonce value gas_price gas_limit (lock_data recipient hash timelock))
          intrinsic
          s
        ≡ some ((used, none, registry'), s')) where
    run_call-process_htlc :
        process_htlc
          (ledger_ops c.sha256)
          c.sha256
          height
          (system_call from nonce value gas_price gas_limit (lock_data recipient hash timelock))
          (after_call c.sha256 from recipient hash timelock s)
        ≡ some (none, s')
    unfolding run_call write_call_data lock_data pack_call_data be
    run_call-process_htlc = ground arith

  -- If the executor runs the call of a lock that the daemon makes, and it succeeds, then the HTLC that
  -- the daemon reads under the ID that was next before it has the sender, the recipient, the amount,
  -- the hash and the timelock of the call, and is pending; and a swap with this ID, hash and amount
  -- has its HTLC confirmed. The amount and the timelock are below 2 ^ 64, the hash is below 2 ^ 256,
  -- and the ID is below 10 ^ 18.
  pub lock-Mirrors :
      (a : Answers) (registry registry' : Registry)
      (height intrinsic used from nonce value gas_price gas_limit recipient hash timelock : ℕ)
      (s s' : Ledger)
      → system_slot 0 s < 1000000000000000000
      → hash < 256 ^ 32
      → timelock < 256 ^ 8
      → value < 256 ^ 8
      → run_call c
          (ledger_ops c.sha256)
          registry
          height
          (system_call from nonce value gas_price gas_limit (lock_data recipient hash timelock))
          intrinsic
          s
        ≡ some ((used, none, registry'), s')
      → a.storage ≡ served hex (ledger_reads c.sha256) s'
      → Mirrors from recipient hash value timelock a (system_slot 0 s)
        × ((sw : Swap)
            → sw.htlc_id ≡ system_slot 0 s
            → sw.hash ≡ hash
            → sw.amount_tybtc ≡ value
            → locate_htlc a sw ≡ some (system_slot 0 s))
  lock-Mirrors a registry registry' height intrinsic used from nonce value gas_price gas_limit
        recipient hash timelock s s' small hash_fits fits value_fits ran same =
      (mirror, λ sw same_id same_hash same_amount. confirmed sw same_id same_hash same_amount)
    where
      tx : Transaction
      tx = system_call from nonce value gas_price gas_limit (lock_data recipient hash timelock)

      s₁ : Ledger
      s₁ = after_call c.sha256 from recipient hash timelock s

      called : Called from recipient hash timelock s s₁
      called = lock_data-Called c.sha256 from recipient hash timelock s hash_fits fits

      locked :
          lock (ledger_ops c.sha256) c.sha256 height tx (system_slot 103 s₁) s₁ ≡ some (none, s')
      locked =
          sym (process_htlc-lock c.sha256 height tx s₁ called.selector)
          ∙ run_call-process_htlc registry registry' height intrinsic used from nonce value
              gas_price gas_limit recipient hash timelock s s' ran

      opened : Opened tx (system_slot 103 s₁) s₁ s'
      opened =
          lock-Opened c.sha256 height tx (system_slot 103 s₁) s₁ s' (omega (arith, called.counter))
            locked

      -- The ID is the same behind the call data.
      at :
          (i : ℕ)
          → system_slot (add64 (base_of (system_slot 0 s)) i) s'
            ≡ system_slot (add64 (base_of (system_slot 0 s₁)) i) s'
      at i = ap (λ id. system_slot (add64 (base_of id) i) s') (sym called.counter)

      low_id : (x : ℕ) → caller_id x % 18446744073709551616 ≡ caller_id x
      low_id x = unfold caller_id in (omega arith)

      mirror : Mirrors from recipient hash value timelock a (system_slot 0 s)
      mirror = record {
        info = htlc_of (λ i. system_slot (add64 (base_of (system_slot 0 s)) i) s');
        read = get_htlc-system a s' (system_slot 0 s) same;
        sender_id = at 0 ∙ opened.sender ∙ omega (arith, called.caller, low_id from);
        recipient_id = at 1 ∙ opened.recipient ∙ called.recipient_id;
        amount = at 2 ∙ opened.amount ∙ omega (arith, value_fits);
        hashlock =
            ap from_be (λ i.
              word_bytes ((at 3 ∙ opened.word_0) i) ((at 4 ∙ opened.word_1) i)
                ((at 5 ∙ opened.word_2) i) ((at 6 ∙ opened.word_3) i))
            ∙ called.words;
        timelock = at 7 ∙ opened.timelock ∙ called.until;
        status = at 8 ∙ opened.status;
      }

      confirmed :
          (sw : Swap)
          → sw.htlc_id ≡ system_slot 0 s
          → sw.hash ≡ hash
          → sw.amount_tybtc ≡ value
          → locate_htlc a sw ≡ some (system_slot 0 s)
      confirmed sw same_id same_hash same_amount =
          unfold locate_htlc in
          (ground (
            arith,
            ap (get_htlc a) same_id ∙ mirror.read,
            mirror.amount,
            mirror.hashlock,
            same_hash,
            same_amount,
            same_id,
            ==_self hash,
            ==_self value,
          ))
