-- ===== src/Trust.antt =====
-- src/trust: the policy and the approvals that the gate consults.
pub mod Policy
pub mod Approvals
