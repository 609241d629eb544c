-- ===== src/Examples.antt =====
-- The theorems of the development at concrete inputs.
mod Budgets
mod Admission
mod Records
mod Planning
mod Running
mod Agents
