-- ===== src/AsyncIo.antt =====
-- src/lua/async_io_library.cc: files and processes that scripts read and write. The children hold the
-- read formats and the reader, the methods of both handles, open and exec, on POSIX and on Windows.
-- Asio and the system are arguments: their answers come as values.
pub mod Reader
pub mod Runs
pub mod Lines
pub mod Counts
pub mod Files
pub mod Processes
pub mod Owned
pub mod History
pub mod Exec
pub mod Inherited
pub mod Calls
pub mod Parked
pub mod Windows
