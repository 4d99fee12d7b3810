-- ===== src/Automation.antt =====
-- apps/api/src/automation/rule-engine.service.ts: automation rules, from their conditions to the
-- first match that is carried out.
pub mod Conditions
pub mod Actions
pub mod Engine
pub mod Scheduler
mod Tests
