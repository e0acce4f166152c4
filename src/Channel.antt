-- ===== src/Channel.antt =====
-- A satellite channel: Source/Tracking/GPSOpenClChannel.cpp and .hpp. `Lock` is the lifecycle,
-- `Ephemeris` the merge of the subframes, `State` the blocks and `History` the navigation update.
pub mod Lock
pub mod Ephemeris
pub mod State
pub mod Debounce
pub mod Merge
pub mod Steps
pub mod History
pub mod Compact
pub mod Cursors
pub mod Update
pub mod Metrics
mod Tests
