-- ===== src/Lib.antt =====
-- Verification of subtrace, a tracer that intercepts the system calls of a program through seccomp
-- user notifications, stands in for its TCP sockets and records the requests that pass.
--
-- The parts of the tracer that keep state of their own are modelled, each in one file with the
-- theorems in files below it. Pure functions are functions; a method of a struct takes the struct
-- as a record and returns it as the call leaves it; a panic is `panic`, an errno and a Go error are
-- the constructors of `Outcome` (Base/Result.antt). What the kernel, the network and other packages
-- answer is an argument of the call.
--
-- Fd: cmd/run/fd/fd.go. Fd/Calls has the methods of FD as calls (NewFD, IncRef, MustIncRef, DecRef,
--   ClosingIncRef, Lock, FD), Fd/Threads the same methods as atomic steps of any number of
--   goroutines, in any order; Fd/Invariant and Fd/Moves have the invariant of these steps. The
--   words have 32 bits and wrap; the theorems on interleavings need fewer goroutines than maxRefs.
-- Seccomp: cmd/run/engine/seccomp. Wire has the structs as bytes (include.go), Notif a notification
--   with Skip, Return, AddFD and Valid, Listener the Receive loop and Close (seccomp.go). They hold
--   and release references of Fd. The Receive loop runs on the list of the kernel's answers.
-- Socket: cmd/run/socket. Inode has the open sockets of an inode and the table of inodes (inode.go),
--   State the states of an inode and what the methods share, Bind, Connect, Listen and Close the
--   methods of Socket (socket.go). A CompareAndSwap takes the state that another goroutine has
--   stored since the load, if any. Descriptors that reserve an address are those of Fd.
-- Websocket: cmd/run/socket/proxy.go, the websocket proxy: Frame is readFull and readFrame, Sliding
--   the window of decompress, Message the read loop of one direction, Extension the header of the agreed
--   extensions. The inflater of package compress/flate is a parameter.
-- Journal: cmd/run/journal/journal.go, the ring buffer of log lines.
-- Event: event/event.go, the tags of an event.
-- Process: cmd/run/engine/process. Machine has the state that a handler works on: the notification,
--   the process with its sockets, the table of inodes, and a store in which sockets name their inode,
--   so that copies of a descriptor share it. An `Act` is a call that reads and writes the machine.
--   Memory is vm.go; Table and Lifetime are process.go; Answer, Handlers, Calls, Opening and Dispatch
--   are handle.go with its table of handlers, on amd64. Host has all that the kernel, the files, the
--   clock and the network answer; each answer may change the world, of which the model knows nothing
--   else. Rules, Quiet, Steady and Answering carry the theorems through the handlers call by call.
-- Engine: cmd/run/engine/engine.go. Engine has getProcess and waitProcess, Imports importInodes, Status
--   getThreadGroupID and findUsername of process.go, Dispatch handle and the receiving loop of Start,
--   Answers what handle leaves of a notification, Workers its workers and safe mode, step by step.
-- Proxy: cmd/run/socket/proxy.go. Guess is guessProtocol, Race the race of proxyOptimistic between the
--   first bytes of the two sides, step by step. Http1 is the tracer of proxyHTTP1 with its upgrades,
--   Http2 proxyHTTP2 with its streams and the calls that write its frames, as any interleaving of the two directions and of the goroutines
--   that wait for a stream's end; Streams and Endings have what it writes and what it finishes. Closing
--   is the race of start with the socket's Close for the two connections. What the packages net/http,
--   http2 and hpack read is the input.
-- Config: config/config.go and filter/filter.go. The YAML decoder, the compiler of expressions and
--   SHA-256 are arguments.
-- Parser: tracer/parser.go. Proto is decodeRawProto over the parameter Wire, which is package protowire,
--   with what it documents as IsWire, and Paths says what an object has at a path of field numbers; Grpc is jsonify. Har is UseRequest and UseResponse, with package
--   har, gzip, brotli and json as arguments, over the sampler of Tracer and the redaction of Config.
--   Finish joins the two sides, asks the filters of Config, reads the log from Journal and sends what is
--   left of the event, whose tags are those of Event. The other files there have the theorems.
-- Tail: cmd/tail/tail.go, the subscriber of the command, on the messages that come.
-- Worker: cmd/worker/worker.go. Columns finds the columns of an Insert, Lines the lines that an event
--   prints; Tables asks for columns and adds them, with the view, over the parameter Database, which is
--   ClickHouse, with what its statements do as Contents; Queries is handleQuery down to the request over
--   HTTP, of which the answer is an argument; Tunnels is the polling loop, round by round.
-- Tracer: Blocks has the Manager of tracer/manager.go with calls one after the other, Delivery what it
--   delivers, Ticks the background flush. Sampler is the sampler of tracer/parser.go, Backoff the
--   waits of dial in tracer/publisher.go, in seconds.
-- Examples: the theorems at concrete inputs.
--
-- Loops are recursion on lists, but for some on fuel: ensureProcessLocked calls itself at most once,
-- which two of fuel are enough for; Insert of the Manager, run alone, ends in its first round; and the
-- loops of decodeRawProto and jsonify take at least a byte in each turn, so that more fuel than the
-- buffer has bytes, which the callers give, is enough.
-- Not modelled: InstallFilter and the BPF program; the goroutines of Listen that accept and dispatch
-- connections; TLS, the hijacking for the developer tools and the plain copies of connections
-- (cmd/run/socket/proxy.go, cmd/run/tls); other calls of the tracer between two steps of a handler;
-- handlers on arm64; Inserts of the Manager that race with its Flush; the loop of the publisher and
-- network calls (tracer); the start of a worker's tunnel, its seed data and the migrations of ClickHouse
-- (cmd/worker); logging, statistics, RPC, tags from the cloud and the other commands, which are input
-- and output; generated code.
pub mod Base
pub mod Fd
pub mod Journal
pub mod Event
pub mod Websocket
pub mod Seccomp
pub mod Socket
pub mod Process
pub mod Proxy
pub mod Engine
pub mod Config
pub mod Tracer
pub mod Parser
pub mod Tail
pub mod Worker
pub mod Examples
