-- ===== src/Examples.antt =====
-- Tests, and the theorems applied to concrete values of the program's types.
mod Data
mod Nodes
mod Saved
mod Ownership
mod Programs
mod Network
mod Chains
mod Miner
mod Peers
mod Sockets
mod Lists
mod Session
mod Consensus
mod Threads
mod Bootstrap
mod Discovery
mod Sharing
