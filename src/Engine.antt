-- ===== src/Engine.antt =====
-- The workflow engine: nexus/core/models.py, nexus/core/workflow.py and the services of
-- nexus/core/workflow_engine/ that it calls.
pub mod Values
pub mod Model
pub mod Gates
pub mod Retry
pub mod Routing
pub mod Serde
pub mod World
pub mod Advance
pub mod Control
pub mod Complete
pub mod Measure
pub mod Termination
pub mod Moves
pub mod Search
pub mod Kept
pub mod Stored
pub mod Completes
pub mod Invariant
pub mod Written
pub mod Calls
pub mod Cases
pub mod ControlInv
pub mod Reach
pub mod Transitions
pub mod Lifecycle
pub mod Acceptance
pub mod Retrying
pub mod RouteChoice
pub mod Gating
pub mod Runnable
pub mod Samples
pub mod Tests
pub mod PartTests
pub mod Activation
