-- ===== src/Application.antt =====
-- The application: Source/Application/GPSOpenClApplication.cpp. `Schedule` chooses the channel that is
-- searched, `State` has the members, `Block` the steps of a block, `Worker` the acquisition thread.
pub mod Schedule
pub mod Sweep
pub mod State
pub mod Block
pub mod Pipeline
pub mod Worker
pub mod Flight
pub mod Interleaved
pub mod Fix
mod Tests
