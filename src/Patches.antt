-- ===== src/Patches.antt =====
-- The validation of proposed patches and of the commands that verify them.
mod Commands
mod Proposal
mod Replaced
mod Validated
mod Applied
mod Selected
mod Examples
