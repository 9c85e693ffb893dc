-- ===== src/State/Tests.antt =====
-- A small database, written to and reverted.
use tylium.Prelude.{ℕ, ◌^◌, ◌<◌, refl, List, Option, none, arith, inr}
use tylium.Merkle.Tree.{get, get_at}
use tylium.Merkle.Map.{empty-Holds}
use tylium.Types.{Account}
use tylium.State.Maps.{Maps}
use tylium.State.Log.{IsLoaded, Runs, Represents}
use tylium.State.Revert.{Restored, revert_to-Restored}
use tylium.State.Db

-- A stand-in for SHA-256, and stores with nothing in them.
abbrev same_hash : List ℕ → ℕ
same_hash bytes = 77

abbrev no_stores : ℕ → ℕ → Option (List ℕ)
no_stores a h = none

same_hash-fits : (b : List ℕ) → same_hash b < 2 ^ 256
same_hash-fits b = omega arith

abbrev fresh : Db.StateDb
fresh = Db.new_db same_hash no_stores (no_stores 0)

abbrev no_maps : Maps
no_maps = record { accounts = λ j. none; slots = λ a k. none }

fresh-Represents : Represents same_hash no_stores same_hash-fits no_maps fresh
fresh-Represents = record {
  global = empty-Holds (no_stores 0);
  cached = λ a t e. absurd (ground arith);
  uncached = λ a e. refl;
}

abbrev snapped : Db.StateDb
snapped = (Db.snapshot same_hash no_stores fresh).1

fresh-IsLoaded : IsLoaded same_hash no_stores same_hash-fits 9 snapped
unfolding Db.snapshot Db.get_account get get_at
fresh-IsLoaded = inr (refl, refl)

abbrev holder : Account
holder = record { nonce = 1; balance = 50; code_hash = 0; storage_root = 0 }

-- A slot of account 9 is written, then the account of address 4.
abbrev written : Db.StateDb
written =
    Db.set_account same_hash no_stores 4 holder (Db.set_storage same_hash no_stores 9 5 123 snapped)

abbrev run : Runs same_hash no_stores same_hash-fits snapped written
run =
    Runs.account_written (Runs.slot_written Runs.start 9 5 123 fresh-IsLoaded (omega arith)) 4
      holder

revert_to-Restored_example :
    Restored same_hash no_stores same_hash-fits fresh
      (Db.revert_to same_hash no_stores (Db.snapshot same_hash no_stores fresh).0 written)
revert_to-Restored_example =
    revert_to-Restored same_hash no_stores same_hash-fits no_maps fresh written fresh-Represents run
