-- ===== src/Tests.antt =====
-- Runs of the code on concrete inputs, and the theorems at inputs that meet their hypotheses.
mod Nodes
mod Predicates
mod Buffers
mod Records
mod Files
mod Slots
mod Indexes
mod Held
mod Rows
mod Trees
mod Searches
mod Operators
mod Queries
mod Tables
