-- ===== src/ModelPolicy.antt =====
-- src/runners/model-policy.ts: the context windows of the models and the efforts that each command-line
-- agent accepts. An effort is its name; `trim` and `toLowerCase` are arguments.
pub mod Limits
pub mod Efforts
pub mod Names
