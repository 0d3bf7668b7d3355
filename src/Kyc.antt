-- ===== src/Kyc.antt =====
-- kyc/: who a user is. Mrz reads passports, Screening looks names up, Service is the orchestration with its
-- webhooks.
pub mod Mrz
pub mod Screening
pub mod Service
pub mod Documents
pub mod Webhooks
pub mod Cleared
pub mod Calls
pub mod Names
pub mod Gate
pub mod Forgery
