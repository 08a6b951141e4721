-- ===== src/Tests.antt =====
-- Concrete inputs for the functions of the development, and its theorems applied to them.
pub mod Documents
pub mod Samples
pub mod Monitors
pub mod Api
pub mod Drawing
pub mod Loading
