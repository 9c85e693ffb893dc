-- ===== src/Swap/Tests.antt =====
-- A daemon with one swap, and the theorems there.
use tylium.Prelude.{
  ℕ, ◌+◌, ◌==◌, if◌then◌else◌, inl, arith, false, true, Option, none, some, List, [], ◌∷◌, ◌≡◌,
  refl,
}
use tylium.Prelude.Words.{pos}
use tylium.Bytes.{be, from_be, shift_in}
use tylium.Swap.{
  buy_sats, sell_sats, Swap, buy, sell, payment_in_flight, refunded, settled, invoice_created,
  refund_submitted, find, put, Daemon, DiskOps, Answers, invoice_accepted,
}
use tylium.Types.{caller_id}
use tylium.State.Ledger.{Ledger, ledger_ops}
use tylium.Contracts.Asm.{pack_call_data}
use tylium.Executor.Slots.{write_args, write_call_data, read_storage, write_storage}
use tylium.Executor.Htlc.{lock}
use tylium.Rpc.{Hex}
use tylium.Rpc.Params.{strip_hex_prefix}
use tylium.Swap.Client.{
  HtlcInfo, htlc_of, get_htlc, get_finalized_htlc, get_finalized_storage, get_next_htlc_id,
  get_storage, storage_value,
}
use tylium.Swap.Requests.{
  after, reserve_buy, finish_buy, open_buy, init_sell_swap, reserve_sell, finish_sell, refuse_sell,
  tracking,
}
use tylium.Executor.Execute.{Crypto, run_call}
use tylium.Executor.Settle.{Registry}
use tylium.Executor.Htlc.{process_htlc}
use tylium.Swap.Submit.{lock_htlc, submit, word, lock_data, system_call}
use tylium.Swap.Monitor.{check_buy_swap, check_swap, check_all}
use tylium.Swap.Restore.{new_daemon}
use tylium.Swap.Exclusive.{Run, stop, ◌then◌, buy_reserved, buy_finished, Run-Exclusive}
use tylium.Swap.Verify.{locate_htlc}
use tylium.Swap.Ends.{Ended, check_swap-Ended}
use tylium.Swap.Guards.{Guarded, init_sell_swap-Guarded}
use tylium.Swap.Others.{check_all-stuck}
use tylium.Swap.Served.{IsHex, served}
use tylium.Swap.OnChain.{ledger_reads, Mirrors, lock-Mirrors}
use tylium.Swap.Invoices.{CheckedBuy, check_buy_swap-CheckedBuy}

-- A stand-in for SHA-256.
abbrev pub hash_zero : List ℕ → ℕ
hash_zero bytes = 0

-- A directory that holds the last swaps written to it.
abbrev pub last_written : DiskOps (List Swap)
last_written = record {
  write_swaps = λ swaps x. swaps;
  read_swaps = some;
  write_preimage = λ htlc_id preimage x. x;
  read_preimage = λ htlc_id x. none;
}

-- Every slot has the same value, which is finalized.
abbrev pub answers : ℕ → Answers
answers v = record {
  height = some 200;
  account = λ a. some (0, 1000);
  storage =
      λ a slot. some (record { value = some (be 32 v); finalized_value = some (some (be 32 v)) });
  finalized =
      λ a slot. some (record { value = some (be 32 v); finalized_value = some (some (be 32 v)) });
  hold_invoice = λ h sats id. some [];
  lookup_invoice = λ h. some invoice_accepted;
  settles = λ p. true;
  decode_pay_req = λ i. none;
  pays = λ i. none;
  sign = λ h. some 1;
  embed = λ e. some 7;
}

abbrev pub start : Daemon (List Swap)
start = new_daemon (pos 0) 144 0 5 (some [])

abbrev pub reserved : Daemon (List Swap)
reserved = after (reserve_buy hash_zero last_written 9 30 start)

abbrev pub one_swap : Daemon (List Swap)
one_swap = after (finish_buy hash_zero last_written (answers 0) (answers 0) 9 8 30 reserved)

abbrev pub waiting : Swap
waiting = record {
  id = 1;
  direction = buy;
  state = invoice_created;
  hash = 9;
  preimage = 0;
  amount_tybtc = 30;
  amount_sats = pos 30;
  htlc_id = 0;
  timelock = 344;
  invoice = [];
  recipient = 8;
  payment_failed = false;
  verified = false;
}

one_swap-waiting : find 1 one_swap.swaps ≡ some waiting
unfolding find put new_daemon reserve_buy finish_buy open_buy lock_htlc submit get_next_htlc_id
    get_storage storage_value from_be shift_in be buy_sats
one_swap-waiting = refl

one_swap-Run : Run hash_zero last_written start one_swap
one_swap-Run =
    stop
    then buy_reserved 9 30
    then buy_finished (answers 0) (answers 0) 9 8 30 (unfold reserve_buy new_daemon in refl)

Run-Exclusive_example : (waiting.id ≡ 1) × (one_swap.active_hashes waiting.hash ≡ some 1)
Run-Exclusive_example =
    Run-Exclusive hash_zero last_written (pos 0) 144 0 5 (some []) one_swap one_swap-Run 1 1 waiting
      waiting one_swap-waiting one_swap-waiting refl refl refl

-- The HTLC has been refunded.
abbrev refunding : Swap
refunding = record waiting { state = refund_submitted }

check_buy_swap-CheckedBuy_example :
    CheckedBuy
      (answers 0)
      (answers 2)
      refunding
      one_swap.actions
      (check_buy_swap hash_zero last_written (answers 0) (answers 2) refunding one_swap).actions
check_buy_swap-CheckedBuy_example =
    check_buy_swap-CheckedBuy hash_zero last_written (answers 0) (answers 2) refunding one_swap

-- A confirmed swap past its timelock.
abbrev expired : Swap
expired = record waiting { verified = true; timelock = 150 }

abbrev expired_daemon : Daemon (List Swap)
expired_daemon = record start { swaps = expired ∷ [] }

abbrev info : ℕ → HtlcInfo
info v = htlc_of (λ i. v)

check_swap-Ended_example :
    ((info 2).status ≡ 2
      → Ended expired refunded (
          check_swap hash_zero last_written
            (answers 0)
            (answers 2)
            1
            (check_swap hash_zero last_written (answers 0) (answers 0) 1 expired_daemon)))
    × ((info 2).status ≡ 1
        → (answers 2).settles (info 2).preimage ≡ true
        → Ended expired settled (
            check_swap hash_zero last_written
              (answers 0)
              (answers 2)
              1
              (check_swap hash_zero last_written (answers 0) (answers 0) 1 expired_daemon)))
unfolding find get_finalized_htlc get_finalized_storage storage_value from_be shift_in be new_daemon
check_swap-Ended_example =
    check_swap-Ended hash_zero last_written (answers 0) (answers 0) (answers 0) (answers 2) expired
      expired_daemon (info 0) (info 2) refl refl refl (inl refl)
      (record { account = ((0, 1000), refl); signs = λ h. (1, refl); embeds = λ e. (7, refl) })
      (omega arith) refl refl refl

abbrev paying : Swap
paying = record waiting { direction = sell; state = payment_in_flight }

abbrev paying_daemon : Daemon (List Swap)
paying_daemon = record start { swaps = paying ∷ [] }

check_all-stuck_example :
    find 1 (check_all hash_zero last_written answers answers (1 ∷ 2 ∷ []) paying_daemon).swaps
    ≡ some paying
unfolding find new_daemon
check_all-stuck_example =
    check_all-stuck hash_zero last_written answers answers (1 ∷ 2 ∷ []) paying paying_daemon refl
      refl refl

-- A stand-in for encoding/hex, which marks what is encoded.
abbrev unmarked : List ℕ → Option (List ℕ)
unmarked [] = none
unmarked (mark ∷ b) = some b

abbrev marked : Hex
marked = record { encode_to_string = λ b. 0 ∷ b; decode_string = unmarked }

marked-IsHex : IsHex marked
unfolding strip_hex_prefix
marked-IsHex = record { decodes = λ b. refl; digits = digits }
  where
    digits : (b : List ℕ) → strip_hex_prefix (0 ∷ b) ≡ 0 ∷ b
    digits [] = refl
    digits (x ∷ b) = refl

abbrev empty_ledger : Ledger
empty_ledger = record {
  view = record { accounts = λ a. none; slots = λ a k. 0 };
  codes = λ h. none;
  saved = [];
}

abbrev no_keys : Crypto
no_keys = record {
  sha256 = hash_zero;
  curve = record {
    recover_compact = λ bytes h. none;
    parse_der_signature = λ bytes. none;
    verify_parsed = λ p h key. false;
    ripemd160 = λ bytes. 0;
  };
}

abbrev nobody_registered : Registry
nobody_registered id = none

abbrev locked :
    (s' : Ledger) × (run_call no_keys
        (ledger_ops hash_zero)
        nobody_registered
        200
        (system_call 5 0 30 1 100000 (lock_data 8 9 344))
        200
        empty_ledger
      ≡ some ((200, none, nobody_registered), s'))
unfolding run_call process_htlc write_call_data lock_data pack_call_data lock read_storage
    write_storage be from_be write_args word caller_id shift_in
locked = (_, refl)

abbrev reading : Answers
reading = record (answers 0) { storage = served marked (ledger_reads hash_zero) locked.0 }

lock-Mirrors_example :
    Mirrors 5 8 9 30 344 reading 0
    × ((sw : Swap)
        → sw.htlc_id ≡ 0
        → sw.hash ≡ 9
        → sw.amount_tybtc ≡ 30
        → locate_htlc reading sw ≡ some 0)
lock-Mirrors_example =
    lock-Mirrors no_keys marked marked-IsHex reading nobody_registered nobody_registered 200 200 200
      5 0 30 1 100000 8 9 344 empty_ledger locked.0 (omega arith) (omega arith) (omega arith)
      (omega arith) locked.1 refl

-- An HTLC for the daemon, of 30 with the hash 9 until 400.
abbrev sold_slots : ℕ → ℕ
sold_slots slot =
    if slot == 10001
    then 5
    else if slot == 10002
    then 30
    else if slot == 10006
    then 9
    else if slot == 10007
    then 400
    else 0

abbrev selling : Answers
selling = record (answers 0) {
  storage =
      λ a slot. some (record { value = some (be 32 (sold_slots slot)); finalized_value = none });
  decode_pay_req = λ i. some (record { payment_hash = some (be 32 9); num_satoshis = pos 29 });
}

abbrev with_fee : Daemon (List Swap)
with_fee = record start { fee_bps = pos 100 }

abbrev sold : HtlcInfo
sold = htlc_of (λ i. sold_slots (10000 + i))

init_sell_swap-Guarded_example : Guarded selling selling 0 sold [] with_fee
unfolding init_sell_swap reserve_sell finish_sell refuse_sell tracking get_htlc get_storage
    storage_value new_daemon from_be shift_in be sell_sats caller_id
init_sell_swap-Guarded_example =
    init_sell_swap-Guarded hash_zero last_written selling selling 0 1 100 sold [] with_fee
      (after (init_sell_swap hash_zero last_written selling selling 0 [] with_fee)) refl
      (omega arith) refl (omega arith) refl
