-- ===== src/Lib.antt =====
-- Verification of filedrop: a program that sends files between devices of a local network. Its core is
-- the crate rust/filedrop-core; a Flutter application calls it through rust/filedrop-ffi.
--
-- The parts and the files that model them:
--   * Errors: rust/filedrop-core/src/error.rs, the error type and its messages.
--   * Security: rust/filedrop-core/src/security/. Security.Filename is `sanitize_filename`,
--     Security.FilePath is `safe_join`, Security.Token the format check and the comparison of pairing
--     tokens, Security.Checksum the streamed SHA-256.
--   * Pairing: rust/filedrop-core/src/pairing/{state,token}.rs. The map of requests is the state; each
--     method is a function of it, since the lock makes each call one step. Pairing.History runs any
--     sequence of calls.
--   * Storage: rust/filedrop-core/src/storage/paths.rs, and in Storage.History the store of past transfers
--     of storage/history.rs.
--   * Transfer: rust/filedrop-core/src/transfer/. Transfer.Session holds sessions and their progress,
--     Transfer.Queue the queue and, in Tasks and Leak, the tasks of rust/filedrop-ffi/src/api/mod.rs
--     (`send_files`, `run_queued_send`) around it, Transfer.Client `send_file`, Transfer.Server the
--     upload handler `receive_transfer` and `transfer_status`. Server.Handler has what comes before
--     and after the loop, Server.Body the loop; Server.Received, Loop, Prepare, Finish and Run have lemmas
--     on the ways through them, and Effects, Sessions, Integrity, Resume, Complete and Short what
--     follows for the whole handler. Client.Delivery puts client and server together,
--     Client.Shrunk is about files that become shorter, Client.Refused about names that the server does not
--     read, and Routes about the router of the server and the URL of the client.
--   * Networking: rust/filedrop-core/src/networking/{resolve,local_iface,mode}.rs, the scan for a free
--     port, the address of the default route, the search for a private address, and the table of direct
--     connection modes.
--   * Discovery: rust/filedrop-core/src/discovery/{device,udp_broadcast,mod,mdns}.rs, the announcements, the
--     filter of the listener and the cache of devices; Discovery.Udp starts and stops the sockets,
--     Discovery.Mdns has what is advertised and found over mDNS, Discovery.Service merges the two.
--   * Engine: rust/filedrop-core/src/lib.rs, the engine that bundles the subsystems, and its setup.
--   * Ffi: rust/filedrop-ffi/src/. Ffi itself is the runtime of runtime.rs, Ffi.Events events.rs,
--     Ffi.Channel the promises of the broadcast channel, Ffi.Stream the two ways in which events reach
--     the application, with Stream.Mailbox as what they promise. The calls of api/mod.rs are in
--     Ffi.Startup (engine and server), Ffi.Nearby (discovery), Ffi.PairDevice, Ffi.Sending, Ffi.Control
--     (accept, reject, pause, resume, cancel) and Ffi.Queries, its types in Ffi.Dto. Ffi.CAbi is the C
--     interface of c_abi.rs; CAbi.Machine puts its functions and the tasks between them into one
--     machine, whose runs CAbi.Run is about.
-- How they interact: the client sends the name, the size, the digest and the body; the server sanitizes
-- the peer's file name, joins it to a directory below the application's directory with `safe_join`, streams
-- the body into a staging file while it hashes, and renames the file when the length and the digest
-- agree. The application starts the engine, the server and the discovery, makes pairing requests and
-- queues files by the calls of Ffi, and hears of what happens by events.
--
-- How it is modelled:
--   * A Rust `String` is the list of its Unicode scalar values, its `len()` the length of its UTF-8
--     form; a `u64` is a natural number with `% 2 ^ 64` where the code adds.
--   * A path is split into its components as `std::path` does on Unix. Files are a function from the
--     components of a path to the contents; the staging and the received files are of this kind.
--   * A `HashMap` is an association list with insert, lookup and remove.
--   * A session is a handle to a cell of a store, since its clones share atomics. What other tasks do to
--     it while the handler waits is part of the request's items: calls to pause, resume and cancel.
--   * Failures of the file system are arguments (`Faults`), and so are the headers, the chunks of the
--     body, the hash, the clock, the random bytes and the encoding.
--   * `hash_loop` runs on fuel, the length of the file, which is enough since every read takes at least
--     one byte; the pause loop runs over the finite list of sleeps, and ends in `suspended` if the
--     session is still paused then.
--   * The runtime of the foreign function interface is a record that each call returns anew; beside the
--     fields of `FfiRuntime` it has the cells of the sessions, the servers that have been spawned, the
--     broadcast port and the spawned tasks. A oneshot sender that is dropped ends its server as one that
--     sends does, since the code ignores which. The event channel, JSON, UUIDs as texts, the mDNS
--     library and the answers of the operating system are arguments.
--   * The HTTP libraries are parameters with the promises of their documentation: a request goes to the one
--     route whose template its path fits, segment by segment (Routes.Axum), and `to_str` gives the value
--     of a header exactly if it is of visible ASCII (Client.Delivery).
--   * `send_files` is one step: the tasks that it spawns are in the state that it leaves, and begin after
--     it, while in the program they may begin as soon as it waits for the next file.
--
-- Not modelled: the sockets, the daemon of the mDNS library and the listener of the HTTP server; two
-- uploads of one id at the same time; a task that begins while `send_files` is still running; the memory
-- of C strings; Windows paths; floating point, which is a parameter of the progress.
pub mod Base
pub mod Discovery
pub mod Engine
pub mod Errors
pub mod Ffi
pub mod Networking
pub mod Pairing
pub mod Security
pub mod Storage
pub mod Transfer
