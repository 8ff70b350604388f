-- ===== src/Graph.antt =====
-- The agent graphs of src/synode/infrastructure/persistence/repository.py: the search for a cycle,
-- the rules that a graph's configuration has to pass, and the writes to the table of graphs.
mod Cycle
mod Rows
mod Defaults
pub mod Stored
mod Reach
mod Ends
pub mod Acyclic
mod Contracts
mod Config
pub mod Bindings
pub mod Accepted
pub mod Examples
