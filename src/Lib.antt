-- ===== src/Lib.antt =====
-- A verification library for the PlayStation 5 payload framework: the HTTP/1.1 server of
-- crates/core/src/http.rs, the wrappers of crates/ps5 that it stands on, and the build script of
-- crates/ps5-sys.
-- The parts of the program, from below:
-- * crates/ps5-sys declares the foreign functions of the console's C library and of the Sony
--   libraries. They are no code of the repository: Sys.antt makes them a parameter, the record
--   `Sys`, whose `respond` answers a `Call` and moves an opaque state. What is documented of
--   them is stated in Ps5/Net/Laws.antt, Ps5/Net/Udp/Echo.antt, Ps5/Fs/Laws.antt and
--   Ps5/Fs/Listing.antt (POSIX) and in Ps5/Http/Body.antt (the reads of a body), as hypotheses,
--   where a theorem needs it.
-- * crates/ps5/src wraps them. Ps5/Error.antt and Ps5/Display.antt are error.rs, Ps5/Util.antt
--   util.rs, Ps5/Net/*.antt net.rs (addresses, helpers on descriptors, TcpStream, TcpListener,
--   UdpSocket, lookup_host), Ps5/Fs/*.antt fs.rs (File and Options the open files, Dir the
--   directory streams, Paths the functions on paths), Ps5/Http.antt http.rs (the client of the
--   Sony HTTP/2 stack) and Ps5/Thread/*.antt thread.rs: Create and Join the calls of `Builder`
--   and `JoinHandle`, Slot the result slot that a thread and its handle share, Sync the calls
--   of locks and condition variables, Exclusion the threads that share a lock. Slot and
--   Exclusion are machines whose events come in any order; whom the platform gives the lock to is
--   the record `Posix`, and what POSIX says of it `PosixLaws`. Ps5/Effect.antt is how the wrappers
--   run: a computation takes a world, the platform's state with the record of the calls made,
--   and returns, fails with an error, aborts (a panic) or has used up its fuel. A `Drop` is a
--   function that the code which owns the value calls. Ps5/Frame.antt tells which calls a
--   computation makes, Ps5/Ownership.antt reads off the record of the calls which descriptors,
--   threads, locks, lists and handles are held, the youngest first.
-- * crates/core/src/http.rs is the server. HttpServer/Request.antt and HttpServer/Response.antt
--   are its two records, HttpServer/Head.antt the search for the end of the head and the parser,
--   HttpServer/Read.antt the loops of `read_request`, HttpServer/Connection.antt
--   `serve_connection`, HttpServer/Server.antt `Server` and its accept loop. It calls
--   TcpListener, thread::Builder and TcpStream's read, write_all and shutdown.
-- * crates/ps5-sys/build.rs makes the bindings at build time. BuildScript.antt is how it runs: a
--   script adds events to a log (lines printed, runs of bindgen, files written) and returns or
--   panics, on a `Host` that stands for the environment, the files, clang and bindgen, which
--   does not change meanwhile. BuildScript/Sdk.antt is the search for the SDK and the arguments
--   for clang, BuildScript/Run.antt `generate` and `main`. A builder of bindgen is the list of
--   the calls made on it. Paths are those of a host with `/` as its separator.
-- Base.antt and Base/*.antt hold what all share. Std/*.antt is what is used of Rust's core
-- library: texts as lists of bytes, split, trim, parse, UTF-8, hexadecimal numbers, quoting.
-- Tests/*.antt run the theorems on platforms that play a script, keep a file or list a
-- directory.
--
-- Strings and byte slices are lists of numbers below 256; lengths are not bounded by memory.
-- The loops recurse on fuel: `read_head`, `read_body`, `write_all`, `read_to_end`,
-- `next_entry` and `drain` take one unit for each round. The rounds of reading are bounded by
-- the limits of the server, since each round that goes on appends a byte, those of writing by
-- the bytes to send and the signals still to come, those of `drain` by the reads that the body
-- still has, those of `read_to_end` by the bytes of the file, those of `next_entry` by the
-- entries still to come, so that the theorems name a fuel that is enough. The accept loop has
-- no end: its fuel is the number of rounds looked at, and running out of it means that the
-- server still runs. Where calls are modelled a thread that is created runs elsewhere, and is
-- known by the descriptor that its packet holds; what it shares with its handle is in
-- Ps5/Thread/Slot.antt.
--
-- The handler of the server is a computation, which may make calls and panic. The theorems on
-- what a connection gets are about handlers that make no call, return and do not panic
-- (`returning` in HttpServer/Connection.antt).
--
-- Not modelled: the declarations of crates/ps5-sys/src, which hold no logic; the texts around
-- the values that a panic of the build script shows.
pub mod Base
pub mod Std
pub mod Sys
pub mod Ps5
pub mod HttpServer
mod Tests
pub mod BuildScript
