-- ===== src/Json.antt =====
-- JSON values as `JSON.parse` gives them, and the text that `JSON.stringify` prints. The printed
-- arrays are the keys of every dictionary of the ledger and the bytes that are signed.
mod Quote
mod Number
mod Value
pub mod Keys
unfoldable pub use Value.*
unfoldable pub use Quote.{IsUnits, quote}
unfoldable pub use Number.{decimal}
