-- ===== src/Examples.antt =====
-- Runs of the model at concrete inputs: test data, and the theorems applied to it.
pub mod Data
pub mod Detection
pub mod Timelines
pub mod Totals
pub mod Playback
pub mod Fingerprints
pub mod Reports
pub mod Flowing
pub mod Screen
pub mod Sources
