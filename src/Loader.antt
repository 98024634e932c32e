-- ===== src/Loader.antt =====
-- nexus/core/workflow_engine/workflow_definition_loader.py and the class WorkflowDefinition of
-- nexus/core/workflow.py: from a parsed YAML definition to a workflow.
pub mod Fields
pub mod Build
pub mod Resolve
pub mod Built
pub mod Loaded
pub mod NextAgents
pub mod Named
pub mod Successors
pub mod Tests
