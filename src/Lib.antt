-- ===== src/Lib.antt =====
-- A model of the edge agent: an agent that scans sensors, runs IEC 61131-3 function blocks and user
-- scripts, and protects its field devices and its cloud connection. The model covers the parts that
-- decide when an output switches and when a request goes out.
--
-- The parts and their files (paths from the repository's root):
--   FunctionBlocks    src/scripting/function_blocks. `Timers/Ton`, `Timers/Tof` and `Timers/Tp` are
--                     TON, TOF and TP of timers.rs; `Counters/Ctu`, `Counters/Ctd` and
--                     `Counters/Ctud` are CTU, CTD and CTUD of counters.rs (the method `reset` is
--                     `reset_counter`, as `reset` is a field); `Edges` is R_TRIG and F_TRIG of
--                     edge_triggers.rs, which have the same fields and differ in `execute`;
--                     `Block` is the trait `FunctionBlock` of mod.rs, as a sum of the eight types.
--   Resilience        src/resilience. `CircuitBreaker` is circuit_breaker.rs, each method as a
--                     thread that runs alone does it; `CircuitBreaker/Threads` is `is_open` again,
--                     one atomic operation a step, with the threads' steps interleaved;
--                     `RateLimiter` is rate_limiter.rs, and `RateLimiter/Race` one interleaving of
--                     its `refill`.
--   Scripting         src/scripting. `Conflict` is conflict.rs, whose three checks are one function
--                     of the key written to; `Limits` is limits.rs; `Registry` is fb_registry.rs,
--                     over the trait `FunctionBlockStore` of persistence.rs as a record of
--                     operations; `Persistence` is that trait and `VariableStore` in SQLite, as
--                     persistence.rs implements them.
--                     `Context` is context.rs, the values by the name of their source; `Triggers`
--                     is triggers.rs: `Cron` on the fields of a schedule, `Firing` and `Spacing` on
--                     when a trigger fires, `States` on the states of the scripts' triggers.
--                     `Actions` is the data of actions.rs and of mod.rs, `Engine` how engine.rs runs
--                     a script: `Steps` an action, `Execution` the script with its limits,
--                     `Returning` and `Callers` on scripts that call each other,
--                     `Retained` on retained variables, `ScanCycle` the statistics
--                     of the scan cycle, `Wiring` the values between function blocks and the
--                     context; `Parallel` is parallel.rs.
--   OfflineQueue      src/offline_queue.rs. The table is a list of rows, and `Sql` sorts the rows of
--                     a query and gives the next id; `Queries` says what is relied on of it. `Delivery` and `Drain` are
--                     about `peek` and `ack`, `Eviction`, `Capacity` and `DiskLimit` about the
--                     limits of `enqueue`, `Batches` about `ack_batch`, `Origins` and
--                     `History` about what the rows hold after any calls.
--   Modbus            src/modbus.rs, the client of one device. `Client` is its data and that of its
--                     security settings in src/config.rs, `Registers` the decoding of values;
--                     `Permitted` and `Policy` are about the requests that it sends, `Circuit` about
--                     its circuit breaker.
--   Common            what the parts share: Boolean tests, lists, machine words, the clock, integers,
--                     maps, results and the interface to JSON values.
--   Examples          the theorems applied to concrete states.
--
-- How the code is read. A `&mut self` method is a function from the state before to the state
-- after, paired with the result where there is one. A method that reads the clock takes its
-- readings, one for each call of `Instant::now()` or `elapsed()` in it. Instants and durations are
-- nanoseconds, `now_millis()` is a number of milliseconds. `u32` and `u64` arithmetic wraps, as in
-- a release build; an `i32` is an integer, with the tests of its limits that the code makes. A
-- panic of an `assert!` is `none`. `Instant::now() - d` stops at 0, and the theorems about a
-- restart assume that the clock reads at least `d`. A `HashMap` is an association list with one
-- entry for a key. `serde_json` is a parameter, `Json`, and `JsonLaws` says what the code relies
-- on: a value reads back as what it was made from. `str::to_uppercase` is a parameter of the
-- registry, and so is its store, of which `StoreLaws` says that a row is what was last saved under
-- its key. In `Persistence` the text of a JSON value is a parameter, `JsonText`, a table is a map,
-- and what the lock and the database answer to a call, failures included, is an argument,
-- `Answers`, as `Replies` is for the queue. The triggers take floats, JSON numbers and arrays, and
-- the calendar of chrono as parameters. The engine counts its readings of the clock, and `clock`
-- says what each one gives. Log lines, names that only they print, and, but for the engine, the
-- texts of messages are left out.
--
-- Three definitions have fuel: `alone` of CircuitBreaker/Threads, which counts a thread's steps,
-- and `alone-returns` says how many are enough; `replay` of OfflineQueue/Drain, a loop over `peek`
-- and `ack`, for which `replay_sends_all` says it; and `execute_with_depth` of Engine/Execution,
-- for which `execution_returns` says it. A number is printed with at most 20 digits, as many as a
-- `usize` has.
--
-- Not modelled: the rest of the scripting engine (of engine.rs the scan cycle itself, and the actions
-- on devices, which are parameters; storage.rs; of persistence.rs the history, the statistics and the
-- migrations), the manager and the actor of the Modbus driver, GPIO, MQTT, commands, configuration,
-- provisioning, health, security and shutdown.
mod Common
pub mod FunctionBlocks
pub mod Resilience
pub mod Scripting
mod Examples
pub mod OfflineQueue
pub mod Modbus
