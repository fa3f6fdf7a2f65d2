-- ===== src/Matches.antt =====
-- Matches (src/matches): the life of a match between two accounts, the reveal of the photos, the
-- consent to continue with its weekly quota, and the maintenance job.
pub mod Models
pub mod Week
pub mod Plans
pub mod Access
pub mod Consent
pub mod Messages
pub mod Maintenance
pub mod Creation
pub mod Reveal
mod Tests
