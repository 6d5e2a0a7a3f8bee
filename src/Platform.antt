-- ===== src/Platform.antt =====
-- What the server takes from code outside the repository: redb tables of serde-encoded values, the
-- SHA-256 digest, the text of a uuid, and, for each call, the uuids that it draws and the clock that
-- it reads. A uuid is its 128-bit number, and a row stored under `id.to_string()` has that number
-- for its key: the text of a uuid is of fixed width, so the two orders agree.
pub mod Sample
pub mod Rows
pub mod Exclusive
mod Defs
pub use Defs.*
