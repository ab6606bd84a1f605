-- ===== src/Tests.antt =====
-- Runs of the modelled code on small inputs, and each theorem at an input that meets its hypotheses.
mod Books
mod Queues
mod Lines
mod Threads
mod Pools
mod Links
mod Servers
mod Systems
mod Workloads
