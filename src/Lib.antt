-- ===== src/Lib.antt =====
-- litime-timescaledb-inserter: a service that polls LiTime batteries over Bluetooth, listens for
-- the advertisements of Victron devices, and writes both to TimescaleDB. This library models its
-- core in Go and proves what makes it correct.
--
-- The parts and their files. Paths are from the repository's root.
-- - Litime/Battery: internal/litime/battery.go, ParseBatteries.
-- - Litime/Queue: the bounded queue of readings in internal/litime/manager.go (publish,
--   closeReadings), as single steps; Litime/Race: the same two as threads that interleave, with the
--   lock closeMu and the receiver, and, in Refines, how the threads are seen as those steps.
-- - Litime/Notify: handleNotification, which the Bluetooth callbacks call and which publishes.
-- - Litime/Resolve: resolveAddresses. Litime/Poll: pollUntilStale. Litime/Backoff: nextBackoff.
-- - Litime/Supervise: superviseBattery and connect, the loop that uses the three before.
-- - Litime/Adapter, Litime/Manager: resolveAdapter and NewManager; its child Run: Run, which starts
--   a supervisor for each battery, waits for all of them and closes the queue.
-- - Litime/Metrics, Victron/Metrics: the recorders of internal/litime/metrics.go and of
--   internal/victron/metrics.go, over Telemetry; their children Setup: NewMetrics, over
--   Registration.
-- - Victron/Device: internal/victron/device.go, ParseDevices.
-- - Victron/Collector: internal/victron/collector.go, handle and publish; its
--   children Scan: NewCollector and scanOnce, and Run: Run.
-- - Timescale: internal/timescale/timescale.go, the inserts, with the statements of
--   internal/timescale/queries/; its child Client: NewTimescaleClient.
-- - Service: insert, insertVictron and the loops over the readings in
--   cmd/litime-timescaledb-inserter/; its child Loops: the two loops taking turns on one database;
--   its children Batteries and Pipeline: the notifications, or the advertisements, with
--   their queue and its writer, as histories in which these interleave.
-- - Logging, Config: internal/logging/logging.go and internal/config/config.go.
-- - Program: main and startVictron, over Effects, which keeps what they do outside and what they
--   defer. The functions above are called in it, and its two loops over the readings write to one
--   database in any order of turns; how the two Run goroutines go is its parameter.
-- Prelude, Strings, Maps, Sorting, Channel, Telemetry and Durations model what these use of Go: its
-- strings, maps, sort.Slice, channels, nil-safe metrics and int64 durations. Each file's children
-- hold its proofs, and Tests its runs and the theorems at concrete inputs.
--
-- How code becomes definitions. A function that mutates state takes the state and returns it; an
-- error and a panic are values of Result. The loops run over lists and need no fuel. What the world
-- does to a loop that waits (notifications, ticks, cancellation, the outcome of a scan or of a
-- connection) is a list of events or of rounds, and the theorems hold for every such list. A Go map
-- is an association list in the order of its iteration. Times are integers of nanoseconds, and a
-- sum of durations wraps as an int64 does where the code computes one (nextBackoff); the silence
-- that pollUntilStale reports is rounded as Duration.Round does. What a battery is given up for is
-- decided on the time itself, which counts from the last notification, or from before Connect.
--
-- Parameters stand for code outside the repository: the Bluetooth and Victron libraries' parsers and
-- payloads, the scan, the adapter, the case tables of package unicode above ASCII, the database's
-- pool and Exec, the meter, env.Parse and the calls that start the telemetry.
--
-- Not modelled: the log lines, which change nothing; the contexts' deadlines; the names of the
-- environment's variables and how the env library parses them; what the telemetry does inside.
-- Run of the manager and of the collector are modelled, but main takes what their queues give and
-- their results as parameters, since the goroutines run at the same time as main. The metrics that
-- main's loops report to are those of the inserts; what the two Runs add to theirs is not in main. Strings that are
-- not UTF-8, and the order that sort.Slice gives elements with equal keys, are left out.
pub mod Logging
pub mod Config
pub mod Registration
pub mod Effects
pub mod Program
pub mod Prelude
pub mod Strings
pub mod Maps
pub mod Sorting
pub mod Channel
pub mod Telemetry
pub mod Durations
pub mod Litime
pub mod Victron
pub mod Timescale
pub mod Service
