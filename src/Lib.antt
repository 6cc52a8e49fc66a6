-- ===== src/Lib.antt =====
-- bernardx: an asynchronous Lua runtime in C++. Scripts run as coroutines on one executor thread; sleep,
-- setTimeout, await, require and loadfile suspend them, and other threads submit tasks and
-- completions, interrupt the runtime or shut it down.
--
-- The parts and the files that model them. Paths are from the repository's root.
--   Value, Machine: the values, errors and results of src/lua/lua_types.h and lua_value_utils.h, and the
--     Lua interpreter as a record `Lua S` of C API calls over an opaque state. One lua_resume is a
--     `Run`: the script's calls of the builtins, rounds of the count hook and calls from other threads,
--     in any order, and then the status.
--   Timer: TimerManager (src/lua/timer_manager.cc). Timer/Table has histories and their
--     invariant, Timer/Refs the ownership of callback references.
--   Pool: CoroutinePool (src/lua/coroutine_pool.cc). Pool/Ownership: each coroutine in one place;
--     Pool/Histories: over any calls.
--   Runtime: LuaRuntime (src/lua/lua_runtime.h, src/lua/lua_runtime.cc): the record `Runtime S` and the
--     thread-safe submission. Runtime/Pending has PreYield, pins and stale entries; Builtins the functions
--     that scripts call; Drive the resumption of a coroutine; Resume MaybeRecycleCo, CheckResumable and
--     DoResume; Tasks ProcessTask, ProcessRequireRun, ProcessLoadFileRun and the awaited API; Stop
--     Interrupt's pass, Shutdown and CancelCall; Executor the bodies of the scheduled closures and the
--     relations `Step` and `Reach` of all histories. Proofs: Frames (what bookkeeping leaves alone),
--     Stable (predicates that every elementary change keeps are kept by every step), Invariants,
--     Deliveries, Recycle, Endings, Answers, Waits, Late, Awaits, Bodies,
--     which also has the trampoline of await, and Wakes.
--   Builder: LuaRuntime::Builder and the initialization of extensions in Setup; Builder/Maps: what names
--     stand for after registration and inheritance; Builder/Create: Create and the globals that it sets;
--     Builder/Created: the histories of what it gives.
--   Program: src/main.cc, its wiring and how the process ends.
--   Libraries: src/lua/library_state.h; Libraries/Closed: Open and Close of the HTTP and the asynchronous
--     library over it, and their functions after Close.
--   Http: src/lua/http_library.cc. Url and Proxy have the parsers, Component what a normalized
--     component is, Accepted what parse_proxy lets through, Request the options and the end of a
--     request, Connection and Socket the WebSocket connection, whose flows are cut where they wait for
--     the client, Quiet what its callbacks are told, Client what the client
--     is asked, Resumed how often a waiting coroutine is resumed, Answered a request up to its
--     resumption, and References the registry references of callbacks.
--   AsyncIo: src/lua/async_io_library.cc. Reader has the formats and what a read does, Files
--     and Processes the handles with every method and completion, Exec async.open and async.exec.
--     What asio and the system answer comes as arguments and completions. Runs and Lines are about
--     reading lines, Counts about read(n), Owned, History and Calls about what a process handle
--     does to the system in any history, Inherited about the descriptors of exec, and Parked about a
--     handle that is closed during a read. Windows has the branches for Windows, with its processes, its
--     HANDLEs and its modes in its children. It meets the runtime in PreYield and PushResume.
--   Json: src/lua/json_lua.h and src/lua/json_library.cc, with tables as finite trees of entries that
--     are set as lua_rawset documents; Fits, Tables and RoundTrip are about decoding and encoding
--     again, Sparse about tables with holes.
--   Providers: src/lua/file_system_code_provider.h and src/lua/file_system_resource_provider.cc; the
--     first one fills the interface CodeProvider of Runtime/Executor.
--   Resources: src/lua/resource_library.cc over any provider.
--   FileSystem: src/lua/fs_library.cc, what each function returns by the answers of std::filesystem.
--   Tests: concrete inputs, with a small interpreter.
--
-- How state and time are modelled. A closure that the runtime gives to its executor is a `Job` in a
-- queue, with the time from which it may run; `Step` runs any closure that is due, so no order among them
-- is assumed. Deliveries to promises and callbacks are kept in the list `settled`, in order. The
-- clock stands still while a closure runs. Coroutines and registry slots are numbers; a hash map is an
-- association list, whose order stands for the order of iteration. Handles count modulo 2 ^ 64 and the
-- cast of milliseconds to int wraps at 32 bits, as in the source. No definition uses fuel but the decimal
-- printing of numbers, where the number itself is enough. A read of a stream is a run over the list of
-- its completions.
--
-- Not modelled: what the host's callbacks do when they are called (a delivery is recorded), the
-- counts of shared pointers, the tables and metatables that are registered in Lua, logging, and data races on the
-- atomic flags (each call from another thread is one step). The Lua interpreter, the executor, the
-- code provider and C modules are parameters: any `Lua S` and any CodeProvider; what asio, the client of
-- cinatra, nlohmann's parser and printer, std::filesystem and the system answer are arguments. What the
-- client of cinatra does, the names of the pipes on Windows, tables that contain themselves and the
-- parsing of the program's flags are not here.
pub mod Base
pub mod Value
pub mod Machine
pub mod Timer
pub mod Pool
pub mod Runtime
pub mod Builder
pub mod Http
pub mod AsyncIo
pub mod Json
pub mod Providers
pub mod Resources
pub mod FileSystem
pub mod Libraries
pub mod Program
pub mod Tests
