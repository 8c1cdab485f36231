-- ===== src/Skill.antt =====
-- Running an approved skill: backend/src/skills/genericSkillRunner.js.
pub mod Reconciliation
pub mod Accounts
pub mod Runner
pub mod Endings
