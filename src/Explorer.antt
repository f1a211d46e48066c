-- ===== src/Explorer.antt =====
-- The explorer: its budget, the nodes of its loop, its safety gates and its fingerprints
-- (apps/api/app/services/explorer).
pub mod Persist
pub mod Budget
pub mod Converge
pub mod Risk
pub mod Locators
pub mod Actions
pub mod Nodes
