-- ===== src/Examples.antt =====
-- Runs of the code on concrete values: each theorem about it applied once, and tests.
mod Fixtures
mod Tokens
mod Elections
mod Voters
mod Tallies
mod Identifiers
mod Ballots
mod Requests
mod Trees
mod Blocks
