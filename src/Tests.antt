-- ===== src/Tests.antt =====
-- Runs of the models at concrete inputs, and the theorems applied there.
mod Goroutines
mod Composed
mod Services
mod Encodings
mod Components
mod Checkers
mod Clients
mod Loops
mod Databases
mod Builtins
mod Brokers
