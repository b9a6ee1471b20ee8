-- ===== src/HashMap.antt =====
-- The tables of the program, std's `HashMap` and `FxHashMap`, as association lists: `get`,
-- `insert`, `remove` and `retain`, with the lemmas that the components use. A table that these
-- operations build holds a key once, `Distinct`.
mod Defs
mod Laws
unfoldable pub use Defs.{HashMap, get, contains_key, insert, remove, retain, Distinct}
pub use Laws.*
