-- ===== src/Workflow.antt =====
-- libs/config_sdk/workflow.py: the workflow graph of a conversation, its validation, and what
-- the editor and the runtime compute on it.
pub mod Words
pub mod Graph
pub mod Raw
pub mod Parse
pub mod Reachable
pub mod Available
pub mod Templates
pub mod Warnings
pub mod Validate
