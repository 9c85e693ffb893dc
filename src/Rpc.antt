-- ===== src/Rpc.antt =====
-- internal/rpc/handler.go: the answers to JSON-RPC calls, over a state database, a store and the
-- heights of a node. Strings are their bytes; encoding/hex and encoding/json are parameters.
mod Records
pub mod Params
pub mod State
pub mod Chain
pub mod Handler
unfoldable pub use Records.*
