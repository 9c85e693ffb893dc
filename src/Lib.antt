-- ===== src/Lib.antt =====
-- Tylium (github.com/djkazic/tylium) derives the state of a ledger from Bitcoin blocks: a scanner
-- finds payloads in the transactions of a block, an executor orders the transactions in them and runs
-- them against a state database over sparse Merkle trees, with a stack machine for contracts, a
-- native handler for hashed timelock contracts (HTLCs) and transfers for an automated market maker.
--
-- The parts and their files:
--   Prelude      names of the libraries passed on; lists, options and Boolean tests over the native
--                numbers; Prelude/Words has the arithmetic of uint64 and the conversion to int.
--   Bytes        big-endian bytes of a number and back (putUint64, readUint32 and the loops like them).
--   Signature    pkg/crypto/sign.go: VerifySender and Verify, and PubKeyToAddress of pkg/types/address.go.
--   Types        pkg/types: transactions, accounts, checkpoints; TxID, SigningHash and TxLess.
--   Encoding     pkg/encoding: codec.go (Tx, Account, Checkpoint) and envelope.go (Envelope).
--   Merkle       pkg/merkle: node.go (Node), tree.go and the in-memory store (Tree). Place, Update,
--                Canonical and Map prove that a tree in memory is a map; Stored and Reload are about
--                nodes in the store; Proof is proof.go, and Proved about it.
--   Vm           internal/vm: opcodes.go, stack.go, context.go, and vm.go (Exec). Gas, Rounds, Metering,
--                Bounds and Faults are about its runs.
--   State        internal/state. Ops is the interface of the database as the executor sees it, and the
--                monad of its states; Ledger is an instance of it, the abstract ledger, with maps for
--                the accounts, the slots and the code; Journal is journal.go and Db statedb.go, the
--                database over tries. Maps, Undo, Log and Revert are about reverts.
--   Scanner      internal/scanner: scanForMagic and processPayloads (Extractor), ExtractFromBlock and
--                ScanBlock (Block).
--   Miner        internal/miner/miner.go; Search is about what a search finds.
--   Executor     internal/executor: call data in slots (Slots), htlc.go (Htlc), settleAMM (Settle),
--                executeTx (Execute) and ProcessBlock (Block), each over any database. Refusals is about
--                the checks, Keeps about what a call cannot touch, Rollback about failed transactions,
--                Mint about deposits, Claims and Payments about HTLCs, Locks about their opening; Apart,
--                Claimed and Once about what comes after a claim; Transfers is about tokens.
--   Mempool      internal/mempool/pool.go.
--   Contracts    contracts/asm.go and calldata.go (Asm); Push is about assembled pushes. Script is
--                contracts/script/compiler.go, from the text to labels, pushes and operations (Source),
--                and from those to bytes (Emit); Placed is about where the labels are.
--   Store        internal/store/store.go, and the keys of pkg/merkle/leveldb.go: Keys, the reads and
--                writes (Ops); Distinct is about the keys.
--   Node         internal/node/node.go: the node's state (Base), checkpoints (Finality), the blocks it
--                takes and reorganisations (Reorg), Sync and Follow (Sync), each over any database
--                and any store. Bounded, Rollback and Resync are about heights, Forks about the fork point,
--                Finalized about the finalized height, Memory about the tries behind a loaded root.
--                Restart starts a node from a Store, and Restarted is about what it has then.
--   Rpc          internal/rpc/handler.go: the parameters of a call (Params), the methods that read the
--                state (State) and the store (Chain), and Handle (Handler).
--   Swap         internal/swap: the swaps and the daemon (Records), the fee (Amounts), tylrpc.go (Client),
--                the transactions of the daemon (Submit), initBuySwap and initSellSwap (Requests), the
--                HTTP API (Api), verifyHTLCID (Verify), executeSell and the checks of the monitor
--                (Monitor), and loadSwaps (Restore). Tracked, Calls, Monitored, Requested and Restored
--                are about the marks of hashes, and Exclusive about any run of the daemon; Located and
--                Invoices are about what a check asks for, Guards about what a sell has passed,
--                Refunding and Ends about how a buy ends, Others about what a check leaves alone;
--                Words, CallData, Served and OnChain are about a lock in the executor (Executor/Locks)
--                and what the daemon reads of it over Rpc.
--
-- How the code is represented. An array of bytes of fixed size (an address, a hash, a key, a
-- signature) is the number that its bytes spell; a slice of bytes is a list of numbers. A uint64 is a
-- native number with its wrap-around written out. A stack is a list, the top first. Errors are values;
-- `none` in the monad of the executor is a run-time panic of Go, which only the machine has. The
-- branches of executeTx from the size limits on are execute_checked, from the snapshot on
-- execute_paid, and the choice of what to call is run_call. The registry of contracts is passed along
-- and returned, in place of the map in the Executor. In the swap daemon the ID "swap-n" is n and the
-- empty ID is 0, the map of swaps is a list, and its calls of others are recorded as a list of actions.
-- A request is two steps, the reservation of its hash and the rest, since other work can run between
-- them; the payment of a sell is a step until it is asked for and one from its answer on, and its claim
-- and the note that it is settled are two more. `none` of an instruction's checked reads in the machine
-- (immediate, quotient) is an index out of range or a division by zero, which panics.
--
-- Fuel. Get, Set and Delete of a tree have 514 rounds: two for each bit of a key, a level and the load
-- of a stored node, and two more. The machine has one round more than there is gas, since every
-- instruction costs gas. The scan for envelopes has as many rounds as there are bytes. The search for a
-- fork point has two rounds more than the height it starts from, and Sync one for each height up to
-- the tip. The 20 rounds over the labels of a script are the compiler's own.
--
-- Parameters. SHA-256, and the ECDSA library with RIPEMD-160 (the record Curve), are functions that the
-- executor takes (the record Crypto); the node takes those and JSON, the keys of the ECDSA library and
-- sorting (the record Outside), and the Bitcoin chain as it is during a call; the miner and the swap
-- daemon take a signer; the order of a block takes sort.Slice as a function; the scan takes bytes.Index;
-- the store takes LevelDB (the record Kv); RPC takes encoding/hex (the record Hex) and encoding/json.
-- The script compiler takes strings and strconv (the record Text). The swap daemon takes its files (the
-- record DiskOps), and for each piece of work what the node, lnd, the signer and the Bitcoin client
-- answer (the record Answers).
--
-- Not modelled: the start of a node in memory mode, the contracts written in the assembler, the HTTP
-- server of RPC, the clients of bitcoind and lnd, signing and the handling of keys, and the commands; of
-- the swap daemon the goroutines, the ticker, the HTTP client, and the interleaving of a check of the
-- monitor with other work on its swap.
pub mod Bytes
pub mod Contracts
pub mod Encoding
pub mod Executor
pub mod Mempool
pub mod Merkle
pub mod Miner
pub mod Node
pub mod Prelude
pub mod Rpc
pub mod Scanner
pub mod Signature
pub mod State
pub mod Store
pub mod Swap
pub mod Types
pub mod Vm
