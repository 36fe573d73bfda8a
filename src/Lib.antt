-- ===== src/Lib.antt =====
-- Woeful is a Wisp server: a client opens one web socket, and over it any number of TCP and UDP
-- streams to hosts that it names. This library models the server and proves what keeps it
-- correct.
--
-- The parts, and how they interact. uWebSockets calls the callbacks of `src/server.cpp` on the
-- main thread: a web socket that opens gets a `WebSocketManager`, and each message goes to its
-- `receive`. `receive` parses a `WispPacket`; a CONNECT opens a socket through
-- `SystemInterface`, which asks the block list of the configuration, and registers it with the
-- epoll of the `SystemWatcher`; a DATA counts the credit of the stream and hands a task to the
-- thread pool, which writes to the socket. The thread of the watcher reads the sockets that
-- epoll reports, and defers a callback to the main thread, which sends what was read to the
-- client, closes the stream if it ended, and renews the credit of the streams. The modules are:
--
-- - Base: the shared helpers. Byte buffers with checked reads (`read_u8`, `copy_from`,
--   `c_string`), results with faults (`out_of_bounds`, `bad_iterator`, `dangling`, which stand
--   for undefined behaviour), association lists for hash maps, Boolean tests.
-- - Packets: `src/packets.h`. `parse_wisp`, `parse_connect` and the like are the constructors
--   that read a buffer, `serialize_wisp` and the like the methods `serialize`. Packets.Wire has
--   the formats and the round trips, Packets.Hostname the host name of a CONNECT.
-- - Config: `src/server.h` and `src/config.cpp`, `read_config` and its loop. Config.Elements
--   says what a configuration that was read contains.
-- - System: `src/systemInterface.h`, `SystemInterface::open_stream` and `EpollWrapper`.
--   System.Calls has the calls of the operating system and of the web sockets; the state of the
--   world is the trace of the calls that were made. System.Access is about the block list and
--   the calls that open a stream, System.Descriptors about open descriptors, System.Port about
--   the port as text, System.Watching about what epoll watches.
-- - Manager: `WebSocketManager` of `src/websocketManager.h` and `src/websocketManager.cpp`, one
--   function per method. A method takes and gives a `Session`: the manager, the queue of the
--   pool and the trace. Manager.Flow is about credit, Manager.Accepts about the frames that
--   `receive` takes, Manager.Replies about what the client is sent, Manager.Counting,
--   Manager.Owned and Manager.Reconnect about descriptors, Manager.Watching about what epoll
--   watches, Manager.Writing about the loop that writes, Manager.Identity about what never
--   changes.
-- - Watcher: `SystemWatcher` of the same files: `read_loop` and `watch_round` are the thread
--   (`watch`), `run_deferred` is the lambda that it defers. Watcher.Reading is about the read
--   loop, Watcher.Owners, Watcher.Held, Watcher.Relay, Watcher.Once, Watcher.Unique,
--   Watcher.Fed, Watcher.Finds and Watcher.Homes about the callback, Watcher.Watching and
--   Watcher.Deferring about what epoll watches.
-- - Server: `src/server.cpp` and `src/main.cpp`. The state of the process, the callbacks, and
--   what `main` does behind the command line, with the options of the app, in Server.Main.
--   Server.Steps is the program as a step relation, in which the callbacks, the rounds of the
--   watcher, the deferred callbacks and the tasks interleave in any order; Server.Sound,
--   Server.Callbacks, Server.Threads, Server.Tasks, Server.Background and Server.Invariant are
--   about its invariant, Server.Covered and Server.Watching about what epoll watches,
--   Server.Uplink about the way of a message to its target, Server.Moves, Server.Alive,
--   Server.Homing and Server.Answers about the managers of the web sockets that are open,
--   Server.Closing and Server.Gone about those that close, Server.Credit about the credit once
--   the callbacks that waited have run, and Server.Start is about `main`.
-- - Downlink: what a client receives of what was read from a target socket, over the traces of
--   the calls, through the watcher, the deferred callbacks and the managers together.
--   Downlink.Silence and Downlink.Methods are about the calls that send no data, Downlink.Apart,
--   Downlink.Ids, Downlink.Addresses and Downlink.Placed about web sockets and stream ids that
--   stay apart, Downlink.Hear about a round of the watcher, Downlink.Copies and Downlink.Carry
--   about a deferred callback, Downlink.Faithful and Downlink.Run about the steps,
--   Downlink.Keeps and Downlink.Drain about the turns of the loop until no callback waits,
--   Downlink.Ends about a stream whose target closed its side.
-- - Pcap: `src/pcap.h`, the capture of a stream as a TCP conversation. Pcap.Numbers is about its
--   sequence numbers, Pcap.Capture has the blocks of the manager under `#ifdef PCAP`, over the
--   captures of its streams, and Pcap.Capture.Attempts is about the loop that writes.
-- - Uplink: what the target of a stream gets of what its client sends, over the traces of the
--   calls and the queue of the pool. Uplink.Writes is about the loop that writes, Uplink.Queue
--   about the tasks that a frame makes, Uplink.Elsewhere about the descriptors of other streams,
--   Uplink.Tasks about a task that ends, Uplink.Counts and Uplink.Run about the steps, and
--   Uplink.Drain about the pool when it runs all tasks.
-- - Locks: the locks of `src/websocketManager.h` and `src/websocketManager.cpp`, as the actions
--   of each callback and each task on them and their uses of what they protect, which is the map
--   of the managers and the maps of the streams (the credit of an entry, which changes under a
--   shared lock, is used on the main thread only). Locks.Threads is the main thread and the
--   threads of the pool as a step relation over what they hold; Locks.Tidy is about the
--   callbacks, Locks.Tasks about what the threads hold, Locks.Progress about where they can go
--   on, Locks.Blocks about what the main thread waits for, Locks.Apart and Locks.Races about
--   uses at the same time, and Locks.Deletion about the destruction of a manager, which takes no
--   lock of its streams. A task that is in `poll` leaves it only by an event outside the
--   program, which also decides whether another round follows.
-- - Tests: runs on concrete inputs, and instances of the theorems.
--
-- Parameters. What the operating system and uWebSockets answer is the record `Os`, functions of
-- the trace so far; the hypotheses about it are `SocketIsFresh` (POSIX: `socket` returns no
-- descriptor that is open) and `ReadsSegments` (`read` returns at most as many bytes as the
-- buffer holds). `Relents` (a system that refuses a write at most so many times in a row) is
-- only for the end of the loop that writes. A step of the program takes from uWebSockets that a
-- web socket that opens is not one that is open, and that a message is bytes, no more than
-- `maxPayloadLength` of them. TinyXML-2 is the record `Tinyxml`, PcapPlusPlus the record `Pcpp`.
-- No law of these two is assumed. Whether a port can be bound is the argument `binds` of `main`.
--
-- Numbers are natural numbers with the wrap-around written out; the machine is little-endian
-- with a 64-bit `size_t`, and theorems about whole buffers ask for a length that fits it. Hash
-- maps are association lists: the order of the loops over them is that of the list.
--
-- Fuel. `read_loop` has a round for each byte up to MAX_WS_FRAME and one more: a round that goes
-- on adds a byte. `read_children` needs a round for each child and one more. `write_loop` is a
-- busy wait on EAGAIN whose end depends on the system: a round for each refusal and one more are
-- enough. Running out of fuel is a result of its own, and a step of the program is only what
-- ends. `decimal`, for `std::to_string`, has five digits for a port.
--
-- Not modelled: what follows the destruction of a manager in the steps of the locks, where a
-- lock that was destroyed is as before; what happens between two instructions, in the steps of
-- the program (a method, a lambda and a round of the watcher are one step each, and any task
-- that was submitted may be the next to run), while the locks are modelled by themselves,
-- without the contents of what they protect; the vendored thread pool `src/BS_thread_pool.hpp`;
-- the event loop of uWebSockets; CLI11; debugging output and what the capture prints.
pub mod Base
pub mod Packets
pub mod Config
pub mod System
pub mod Manager
pub mod Watcher
pub mod Server
pub mod Downlink
pub mod Uplink
pub mod Locks
pub mod Pcap
pub mod Tests
