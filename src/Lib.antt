-- ===== src/Lib.antt =====
-- A model of the Dirtybird miner's own logic, written in C++: one process with worker threads that
-- hash and one network thread that talks to a DERO daemon over a TLS WebSocket.
--
-- The parts and how they interact. The daemon sends jobs as JSON texts. `handle_job` (src/network.cpp)
-- reads one with the extractors `json_str` and `json_int` and stores it in the global `MinerState`
-- (include/dluna.h), moving `jobEpoch` on when the work changed. Workers (src/miner.cpp) copy the job
-- under `jobMutex`, hash, compare the hash with a target (src/difficulty.cpp), and pass what they
-- find through two stale gates into the bounded `submitQueue` under `submitMutex`. The network
-- thread swaps the queue out and sends each share that is still current.
--
-- The files.
-- - Base: numbers, bytes and machine words, integers, Boolean tests, lists by index.
-- - Text: C strings, `strtoll`, hexadecimal text (include/hex.h), the JSON extractors.
-- - State: `MinerState` as a record. Its 64-bit counters are numbers below 2 ^ 64 that wrap.
-- - Difficulty: `compute_target` and `check_hash`.
-- - Job: `handle_job`, on the state and `g_session_has_job`.
-- - Share: `dluna_submit_enqueue`, both functions named `submit_share`, `cleanup`; Share/System puts
--   the workers and the network thread together as a step relation, one atomic access of the shared
--   state at a time, and Reach are the states that some schedule leads to from the program's start.
-- - Ws: `send_all`, `recv_all` and the WebSocket frames of `ws_send_message` and `ws_read_message`.
--   The loops run on fuel: one write for each byte, and 200 reads for each byte, which the bound on
--   stalled polls makes enough.
-- - Console: the status line of src/console.cpp, its five layouts and `ansi_clamp`.
-- - Topology: the pinning order of src/cpu_topology.cpp.
-- - Tune: the options of src/runtime_tune.cpp.
-- - Backoff: the waits between connections and `backoff_sleep`, on fuel of one round for each
--   millisecond.
-- - Radix: the counting passes of the radix sorts, for entries of any type.
-- - Stage: the suffix sorter of src/v114_stubs.cpp. Of the first stage, Stage/Parse reads its input,
--   Stage/Order compares suffixes and sorts positions, Stage/Emit writes records and arena entries,
--   Stage/Rounds and Stage/Run are the 256 rounds over a run of groups, which the source writes out
--   once for each of its handlers, Stage/Encode has the encoders and Stage/Fused the form that fills
--   a scratch area. Of the last stage, Stage/Descriptors reads the records, Stage/RunSort has the
--   radix sorts of the runs, Stage/AfterKey and Stage/Merge are the comparisons and the way to
--   write a group of runs with one key, its segments being lists, and Stage/Groups is the whole call.
--   Stage/Tail puts the two stages together as tools/replay/bench_stage5.cpp does, and Stage/HashSink
--   has the fused form, which hashes the positions instead of writing them: the buffer of the sink
--   is the list of the words in it, SHA-256 is a parameter, and the loop that writes positions runs
--   on fuel of one round for each position. Stage/Libsais is the reference form, with the vendored
--   libsais as a parameter. `std::sort` is a parameter: where its test is a strict weak order on
--   the entries, it gives a permutation with no entry before one that precedes it (Stage/StdSort),
--   and a list as long as the old one. The comparison loop runs on fuel of one round for
--   each position, which reaches the end of the text, a merge on one round for each entry, the
--   merging passes on one for each segment and the loop over groups on one for each run. Positions
--   are below 2 ^ 17 there, so that their sums and the words made of a count and an index do not
--   wrap.
--
-- Words. Machine integers are numbers with the wrap-around written out; signed 64-bit values that are
-- compared or divided are integers. Times and counts that the program never lets overflow are plain
-- numbers.
--
-- Outside the model. OpenSSL, the sockets, the clock and the C library's formatting are not modelled;
-- what they return is an argument: whether a send succeeds, which message arrives. The step relation
-- lets a message, a failed read and a failed send happen at any time, and it leaves out `quit`. The
-- rest of the hash (the branch loop of AstroBWT, the materialized form and the other suffix sorters,
-- SHA-256 and the vendored libsais, Salsa20, highwayhash, xxhash and fnv1a code) is not modelled.
pub mod Base
pub mod Text
pub mod State
pub mod Difficulty
pub mod Job
pub mod Share
pub mod Ws
pub mod Console
pub mod Topology
pub mod Tune
pub mod Backoff
pub mod Radix
pub mod Stage
