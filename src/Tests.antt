-- ===== src/Tests.antt =====
-- Runs on small inputs, and the theorems applied to them.
mod Market
mod Board
mod Book
mod Trades
mod Settled
mod Counters
mod Ring
mod Interleaving
mod Sockets
mod Logging
mod Runs
mod Fractions
mod Host
mod Tuning
mod Stats
mod Demo
mod Program
mod Web
mod Mains
