-- ===== src/Examples.antt =====
-- Runs at concrete inputs.
mod Outages
mod Data
mod Turns
mod Stores
mod Slots
mod Requests
mod Patterns
mod Scores
mod Encodings
mod Configured
mod Bench
