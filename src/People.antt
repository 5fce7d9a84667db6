-- ===== src/People.antt =====
-- The application layer of the People API, services/people-api.
pub mod Errors
pub mod Texts
pub mod Auth
pub mod Authorization
pub mod Commands
pub mod Digest
pub mod Store
pub mod Mutations
pub mod Hire
pub mod Governance
pub mod Reading
mod Tests
