-- ===== src/Lib.antt =====
-- xrdhover: the load generator for XRootD data servers.
--
-- `xrdhover run` keeps up to max_inflight file sessions open at a fixed byte rate. The engine
-- (src/run_command.cc) asks the scheduler for sessions, pays for each read at a token bucket,
-- holds a slot of a semaphore per session, and gives each session's result to the metrics
-- registry. A session (src/file_session.cc) is a chain of asynchronous XrdCl calls; a watchdog
-- thread ends the sessions past their deadline.
--
-- Which file models what:
-- - Session: the file session. State is its data; Plan, Ops, Issue, Opening, Handlers its methods
--   (OnOpen is on_open, and so on). A method gets the clock reading that it makes, XrdCl's answer
--   to the one submission it makes, and the session, and returns the session; what it asks of its
--   surroundings is the session's log. Life is what the callers see of it, Refine says what each
--   handler does to that, Reach is every interleaving of callbacks, deadlines and engine calls,
--   and Protocol an abstract protocol.
-- - Watchdog: SessionDeadlineWatchdog of src/file_session.cc.
-- - Engine: the admission loop of src/run_command.cc, its callbacks, and RunRunCommand. Sites and
--   Publish hold what RunEngine's threads do beside the loop (site names, the rounds of the timer),
--   Ending its start and its end; run_engine composes them.
-- - TokenBucket, Inflight, Scheduler, RunConfig: src/token_bucket.cc, src/inflight.cc,
--   src/scheduler.cc, src/run_config.cc.
-- - Metrics, ErrorClassifier, SiteMap, SitenameResolver: src/metrics.cc, src/error_classifier.cc
--   with src/soft_fault_log.cc, src/site_map.cc, src/sitename_resolver.cc.
-- - Units: src/units.cc, Format its printing.
-- - Json, Workload: src/workload_spec.cc over nlohmann's kinds of values. Data holds the specs of
--   include/xrdhover/workload_spec.hh, Fields the checks of one field, Sections, Sinks, Pattern
--   and Target the parts of ValidateWorkloadJson, Canonical the JSON that is hashed, Validate the
--   functions that the program calls. A check returns the value and the issues that it adds.
-- - AuthCheck, WorkloadRun: src/auth_check.cc and src/workload_run_command.cc, from the workload
--   file to the run command.
-- - PromEncode, Pushgateway: src/prom_encode.cc, src/pushgateway_sink.cc with
--   include/xrdhover/push_group.hh. A sink keeps the options of its curl handle and the requests
--   that it performed with them.
-- - Chirp: src/chirp_sink.cc, as the commands that it runs.
-- - FileSink, Report: src/file_sink.cc and src/report_command.cc. Documents holds the JSON that the
--   sink writes, Writer its calls over a store of files, Written what the report makes of a result
--   that was written; Discover, Aggregate and Command are the steps of RunReportCommand, Human
--   what PrintHuman prints.
-- - Witness: the theorems at concrete inputs.
--
-- Numbers: times are nanoseconds, tokens 10^-9 bytes, so what the source rounds in doubles is
-- exact here; the numbers of a workload are the decimals that were written, the doubles of a
-- snapshot are fractions. 32- and 64-bit wrap-around is written out where the source can reach it.
-- The random engine, XrdCl's answers and the site query are arguments. What the workload takes
-- from libraries and the file system (Host), the credential check from OpenSSL and the environment
-- (System) and the sink from libcurl and printf (Outside) are parameters: records of functions.
-- session_done is four events of the engine, between which anything else may happen.
-- The loops are recursions on the lists or counts that they run over. The printing of a number runs
-- on fuel, its value plus one, and it has no more digits than that; the rounding of a count to a
-- double (Report/Data) on fuel 11, and a count of 64 bits needs at most 11 doublings of the unit.
--
-- Not modelled: the printed summary of a run, dry-run printing, the parsing and the text of
-- JSON (parameters), the texts of exceptions other than a file list's and a site map's (none in an
-- issue), the spawning of condor_chirp and what it does (a parameter with its laws), the
-- set-up of a run's sinks and of XrdCl's environment, the probe and read commands, the command
-- line, and the threads' condition variables; an event of the engine stands for each critical
-- section, and the timer and site threads are definitions of their own, beside its events.
pub mod Prelude
pub mod TokenBucket
pub mod Inflight
pub mod RunConfig
pub mod Session
pub mod Scheduler
pub mod ErrorClassifier
pub mod Metrics
pub mod Engine
pub mod Json
pub mod Workload
pub mod AuthCheck
pub mod WorkloadRun
pub mod PromEncode
pub mod Pushgateway
pub mod Chirp
pub mod Report
pub mod FileSink
pub mod Units
pub mod Witness
pub mod SitenameResolver
pub mod Watchdog
pub mod SiteMap
