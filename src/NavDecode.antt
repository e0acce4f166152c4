-- ===== src/NavDecode.antt =====
-- NavDecode/GPSOpenClNavigationDecoder.cpp.
pub mod Words
pub mod Fields
pub mod Parity
pub mod Preamble
pub mod Subframe
pub mod Search
pub mod Samples
pub mod Sync
pub mod Encode
pub mod Progress
pub mod Locking
pub mod Process
pub mod Contents
pub mod Shift
mod Tests
