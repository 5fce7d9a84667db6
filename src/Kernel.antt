-- ===== src/Kernel.antt =====
-- The employment-truth kernel, packages/hris-kernel.
pub mod Errors
pub mod Samples
pub mod Intervals
pub mod Facts
pub mod Values
pub mod Audit
pub mod Resolution
pub mod Coverage
pub mod Assignment
pub mod Correction
pub mod Organization
pub mod Employment
pub mod Workforce
pub mod JobAnalysis
