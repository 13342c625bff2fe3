-- ===== src/Examples.antt =====
-- Small inputs of each part of the program, and what the theorems say of them.
mod Workflows
mod Captures
mod Graphs
mod Calls
mod Tools
mod Turns
mod Latencies
mod Sessions
mod Configs
mod Events
mod Texts
mod Transfers
mod Invitations
mod Campaigning
