-- ===== src/Lib.antt =====
-- GPSOpenCl: a software receiver for GPS, from samples to a position. A source reads blocks of samples,
-- the acquisition finds satellites, each satellite has a channel that tracks it and decodes its
-- navigation messages, and the solver computes a position from the channels' measurements.
--
-- The library models the parts that keep state and decide what the receiver believes:
-- * `BoundedQueue` (Source/Common/GPSOpenClBoundedQueue.hpp), the ring between producers and consumers.
--   A method runs under the mutex and is one step; a wait whose predicate is false is an outcome of its
--   own. `BoundedQueue.Fifo` is its specification, a bounded list. `size_t` sums wrap round.
-- * `NavDecode` (Source/NavDecode/GPSOpenClNavigationDecoder.cpp, and the record `GpsEphemeris` of its
--   header): `Words` is `checkParity`, `findPreamble` and the bit fields, `Samples` the demodulation,
--   the word loop and the timing search, `Search` one attempt and the loop over the twenty phases,
--   `Sync` `processPromptSignal`, `Subframe` the contents and the wire form. What the code writes through
--   references is returned. `NavDecode.Encode` is an encoder after IS-GPS-200, which the code has not.
-- * `Channel` (Source/Tracking/GPSOpenClChannel.cpp): `Lock` is `computeNextState`, `Ephemeris` is
--   `mergeSubframe`, `State` is `initTracking`, `trackBlock` and `evaluateLockState`, `Metrics` is
--   `insertAcquisitionMetrics`, `History` is `compactNavigationHistory` and `updateNavigation`. The
--   channel calls the decoder's `process_prompt_signal` on its histories; it sees its tracking loop
--   through the record `Engine`.
-- * `WorkerPool` (Source/Tracking/GPSOpenClTrackingWorkerPool.cpp), which runs the channels' blocks on
--   threads: `run`, `workerLoop` and `drainCursor` as a step relation over all interleavings.
-- * `Settings` (Source/Common/GPSOpenClSettings.cpp): `updateConfigurationStruct`, with the map of the
--   file's entries as a function of the keys and the standard library's conversions as a parameter.
-- * `CaCode` (Source/Acquisition/GPSOpenClCaCodeGenerator.cpp): the shift registers of `rawCaCodes` and,
--   in `CaCode.Bits`, the standard's registers over bits. `delay_chips` is the part of the table
--   that the 32 satellites use. `CaCode.Lookup` is `createLookupTable`, with the transform as a parameter.
-- * `Tracking` (Source/Tracking/GPSOpenClTracking.cpp and GPSOpenClLockDetector.cpp), the tracking loop
--   of a channel: `Chips` the index of a chip, `Correlator` the correlator with its lanes, `Loop` the
--   discriminators and loop filters, `Work` `doWork`. It fills the record `Engine` that `Channel` takes.
-- * `Acquisition` (Source/Acquisition/GPSOpenClAcquisition.cpp): the Doppler bins, the slots of
--   reference spectra, the two ways over the bins and the peak. The spectrum engine is the record `Gpu`.
-- * `Pvt` (Source/Pvt): `Orbit` and `Atmosphere` are the models of orbit and delays, `Matrix` the
--   elimination, `Solve` and `Position` `solvePosition` (`Solve` a round of least squares, `Position` the
--   rejection, the DOP values and the outcome), `Output` the wire form, `Assemble` the
--   MeasurementAssembler, which takes `Channel`s and hands their measurements to the solver.
-- * `Application` (Source/Application/GPSOpenClApplication.cpp): `Schedule` chooses the channel to
--   search, `State` is the object with its two queues (`BoundedQueue.Fifo`), `Block` and `Pipeline` are
--   `processBlock`, `Worker` is the acquisition thread as steps between the blocks.
-- * `Sink` (Source/Sink/GPSOpenClSink.hpp and GPSOpenClFileSink.cpp, Source/Common/GPSOpenClEndian.hpp):
--   the records of the log file. `Sink.Framing` has a reader, which the code has not.
-- * `Nmea` (Source/Sink/GPSOpenClNmeaGenerator.cpp): the checksum and the satellites of the GSV
--   sentences. `Nmea.Checksum` has a receiver's check, which the code has not.
-- * `Input` (Source/Input/GPSOpenClFileSource.cpp): the blocks of a capture, read as it goes or from
--   memory. The content of the file is a parameter; the timestamp of a block is left out.
-- * `Maths` stands for `double` with the functions of `<cmath>`, in the solver and its clients. A theorem
--   that needs a law of it states it as a hypothesis; `Pvt.Residuals` has those of IEEE 754, NaN included.
-- * `Float` stands for the machine's `float` and `double`, a parameter of all definitions that compute
--   with them. No law of it is assumed but where a theorem states one.
--
-- Loops are recursions on the rounds left or on lists. `iterate` has the 15 rounds of the code, and
-- `kepler` its ten. `solve_with` runs on fuel, one more than the satellites: every further round rejects
-- one. The moves of a chip index into the code (`count_down`, `count_up`) run on as much fuel as the
-- index is large. A `uint32_t` is a number below 2 ^ 32, with its wrap-around where the code shifts
-- left, and the count of the blocks wraps round; an `int32_t` read from bits is an integer. The number of
-- Doppler bins is none where an `int` would overflow. Sample numbers and sizes are `size_t`: their sums are
-- bounded by the memory and do not wrap, and the subtractions in place of the compaction are written
-- with the wrap-around. A message that the channel formats as text is an event.
--
-- Not modelled: the spectrum engine and its transforms, the parsing of the configuration file,
-- the simulator as a source, the telemetry exporter, the byte order of the wire records, the start and
-- the end of the application.
-- Nor are the OpenCL driver and kernels, sockets and files, timing measurements and text formatting.
pub mod Acquisition
pub mod Application
pub mod BoundedQueue
pub mod CaCode
pub mod Channel
pub mod Float
pub mod Input
pub mod Maths
pub mod NavDecode
pub mod Nmea
pub mod Prelude
pub mod Pvt
pub mod Settings
pub mod Sink
pub mod Tracking
pub mod WorkerPool
