-- ===== src/Store.antt =====
-- The database: its rows, tables by primary key, and transactions over it.
mod Records
mod Table
mod Keys
mod Monad
mod Sweep
mod Committing
pub use Records.*
pub use Monad.{
  Error, Result, ok, err, M, continue, ◌>>◌, Commits, Triple, Keeps, continue_rule, Triple-bind,
  Triple-given, Keeps-bind, Keeps-pure, Keeps-raise, Keeps-gets, Keeps-or_raise, Keeps-if,
  Keeps-when, lookup_rule, raise_if_rule, insert_rule, gets_rule, Triple-post, committed, fact_rule,
  Triple-when, Triple-if, then_rule, Keeps-raise_if, Keeps-modify, Keeps-for_each, for_each_rule,
  keeps_rules,
}
unfoldable pub use Monad.{◌>>=◌, pure, raise, gets, or_raise, modify, raise_if, when, for_each}
pub use Table.{
  find-key, find-append, find-update_self, find-update_ne, find-update_cases, All-update,
  All-update_any, All-update_found, All-find, ne_test,
}
unfoldable pub use Table.{find, update}
pub use Keys.{Unique, found_kept, Unique-update, Unique-append}
pub use Sweep.{Among, Left, Left-start, Left-end, Left-step}
pub use Committing.{
  Returns, Returns-mono, Total, Total-bind, Total-gets, Total-found, Total-modify, Total-pass,
  Total-given, Total-for_each,
}
