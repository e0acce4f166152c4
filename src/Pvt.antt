-- ===== src/Pvt.antt =====
-- The position solution: Source/Pvt/GPSOpenClPVTSolver.cpp, GPSOpenClAtmosphericCorrections.cpp and
-- GPSOpenClMeasurementAssembler.cpp.
pub mod Orbit
pub mod Atmosphere
pub mod Matrix
pub mod Shape
pub mod Solve
pub mod Residuals
pub mod Position
pub mod Output
pub mod Solved
pub mod Outcome
pub mod Assemble
pub mod Ranges
pub mod Tests
pub mod ChannelTests
