-- ===== src/Tests.antt =====
-- Runs of the theorems at concrete inputs: a 10-bit space with digits of 3 bits, small identifiers,
-- a routing table with three successors, a store of two resources and a pool with one connection.
mod Data
mod Wire
mod Workers
mod Servers
mod Configs
mod Ids
mod Tables
mod Services
mod Lookups
mod Locals
mod Requests
mod Halting
