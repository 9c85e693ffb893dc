-- ===== src/Types.antt =====
-- pkg/types: the data that the parts exchange. An array of bytes of fixed size ([20]byte,
-- Hash256, a key, a signature) is the number that its bytes spell, the most significant first;
-- `be` writes it out again.
mod Records
pub mod Order
unfoldable pub use Records.*
