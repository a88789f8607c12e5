-- ===== src/Tests.antt =====
-- Runs of the modelled code on small inputs, and the theorems at concrete inputs where their
-- hypotheses hold.
mod Threads
mod Times
mod Integers
mod Listing
mod Buffers
mod Arrays
mod Waits
mod Modules
mod Sockets
mod Pending
