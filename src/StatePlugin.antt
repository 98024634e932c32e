-- ===== src/StatePlugin.antt =====
-- nexus/plugins/builtin/workflow_state_engine_plugin.py: the adapter that finds the workflow of an
-- issue and works on it through the engine.
pub mod Refs
pub mod Outputs
pub mod Completion
pub mod Cases
pub mod Numbered
pub mod Sound
pub mod Reported
pub mod Redelivery
pub mod Applied
pub mod Refused
pub mod Delivered
pub mod Tests
pub mod Creation
pub mod Manual
pub mod Rewound
pub mod Operations
pub mod Runs
pub mod FreshIds
pub mod Forced
pub mod Status
pub mod ManualTests
