-- ===== src/Tests.antt =====
-- Runs of the definitions on inputs that can be followed in the sources, and each theorem at an
-- input that meets its hypotheses.
mod Autotune
mod Breaker
mod Health
mod Finalizer
mod Coordinator
mod Cache
mod Tuning
mod Identity
mod Interleaver
mod ReorgDetector
mod Ingester
mod Batches
