-- ===== src/Swap.antt =====
-- internal/swap: the daemon that swaps between Lightning and the native balance. A swap's ID
-- "swap-n" is n, and the empty ID that reserves a hash is 0; a 32-byte hash or preimage is a number.
mod Amounts
mod Records
pub mod Client
pub mod Submit
pub mod Requests
pub mod Api
pub mod Verify
pub mod Monitor
pub mod Restore
pub mod Tracked
mod Calls
mod Monitored
mod Requested
mod Restored
pub mod Exclusive
mod Located
pub mod Invoices
mod Refunding
pub mod Ends
pub mod Others
pub mod Guards
unfoldable pub use Records.*
unfoldable pub use Amounts.*
mod Words
pub mod Served
mod CallData
pub mod OnChain
mod Tests
