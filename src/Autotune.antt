-- ===== src/Autotune.antt =====
-- internal/pipeline/coordinator/autotune: the controller that resizes the batch of a chain's
-- coordinator. Its parts are the modules below this one.
pub mod Types
pub mod Clamp
pub mod Digest
pub mod Markers
pub mod Fence
pub mod Ordering
pub mod Construct
pub mod Telemetry
pub mod Signals
pub mod Resolve
pub mod Policy
pub mod Lineage
pub mod Window
pub mod Parsed
pub mod Normal
pub mod Stages
pub mod Bounds
pub mod Truth
pub mod Holds
pub mod Cooldown
pub mod Restart
