-- ===== src/Fabricator.antt =====
-- The fabricator: the life cycle of its runs, and the guard on the number of active agents.
mod Lifecycle
mod Agents
mod Advised
mod Guarded
mod Bounded
mod Stranded
mod Examples
