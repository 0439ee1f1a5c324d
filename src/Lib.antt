-- ===== src/Lib.antt =====
-- A model of slirp4tinc, which passes network packets between a UML network switch, such as tinc's,
-- and the slirp user-space network of libvdeslirp.
--
-- The program has two handlers, which a select loop calls when their descriptors are ready: the plug
-- (src/umlplug/UmlNetworkSocketPlug.cpp) exchanges packets with the switch, through the functions of
-- src/umlplug/daemon_user.c, and the slirp handler (src/SlirpHandler.cpp) exchanges them with the
-- library. They are joined by two rings of packet buffers, uml2slirp and slirp2uml, each of which is a
-- producer-consumer context (src/Util/ProducerConsumer.h).
--
-- The modules:
--   ProducerConsumer: the context with its data members, its semaphores and every operation.
--     Pool is the abstract view, slots that wait in queues; Rep says when a context represents a pool,
--     and Ring does so for one circular buffer; Refine has a module for each operation. Exchange and
--     Session are what a client sees: payloads in a queue. Threads has the interleavings of threads,
--     whose steps are the calls of the semaphores, the sections that hold the mutex, and the asserts in
--     front of them; Log says which payloads a step releases or takes, AreOrderly that no thread
--     releases or cleans up an item that another one is releasing or cleaning up.
--   Counting: the semaphores, as counters.
--   Daemon: Os has the parts of the operating system that daemon_user.c uses, Net its transfers
--     (net_sendto, net_recvfrom, daemon_user_write), Switch its connection (connect_to_switch,
--     daemon_user_init, daemon_remove), Info the table daemon_user_info, which the plug calls them by.
--   Packets: struct XferBuffer and the two rings (src/Slirp4TincTypes.h, src/main.cpp); View says which
--     packets wait in a ring.
--   PosixSemaphore: src/Util/PosixSemaphore.cpp on the calls of the C library.
--   Mutex: the locks of src/Interface/Mutex.h and Semaphore.h, and Mutex::ScopedLock.
--   ByteStream, FdIoStream: the block operations of src/Interface/ByteStream.cpp, with those of
--     ByteStreamDecorator.cpp in Decorator, and the stream on a descriptor of src/Util/FdIoStream.cpp.
--   Callback: the callback objects of src/Interface/Callback.h, which the program does not use.
--   FdSelectHandler: the chain of handlers and the select loop (src/Interface/FdSelectHandler.cpp), with
--     the proofs on chains in Chain and on waitOn in Dispatch, Waits and Bounds.
--   PrintfToStream: src/Util/PrintfToStream.cpp, for pointers of 64 bits: prints and printi, dbl2stri in
--     Float and vprintf in Format, each with its proofs below it.
--   HexdumpToByteStream: src/Util/HexdumpToByteStream.cpp, which calls printf.
--   UmlNetworkSocketPlug, SlirpHandler: the two handlers, each with its proofs in Transfer.
--   Bridge, Main: the handlers joined by the rings as src/main.cpp joins them, and its start and loop;
--     Bridge.Relay and Bridge.Order follow packets through any sequence of calls of both handlers,
--     Main.Flow, Main.Forward and Main.Drain through any rounds of the loop.
--   Prelude: lists and Booleans over the native numbers, integers, and the results of calls.
--   Tests: the theorems at concrete inputs, as in ProducerConsumer.Session.Tests,
--     Daemon.Switch.Tests and FdSelectHandler.Tests.
--
-- A call ends in one of five ways (Prelude.Run): it returns, it waits for a semaphore or for an answer
-- that is not there, an assert fails, the process exits, or its behaviour is undefined. Undefined are
-- the use of a null, freed or uninitialised pointer, a copy past the end of an object, and the use of
-- an object as an item that is none. The model's fields are the source's data members in snake_case,
-- and its functions the source's functions; a part of a function with a name of its own is a block of
-- it. The 32-bit counters wrap around; a context has less than 2 ^ 31 items, so that slot numbers are
-- values of an int. The repetition of an interrupted system call is a recursion on the list of the
-- answers that the attempts get. The loops of ByteStream have fuel for one pass more than there are
-- bytes, and two for a block to write, which is enough if single bytes are taken or refused. Those of
-- waitOn take theirs as an argument: one pass more than the chain has handlers is enough, three for the
-- two of main, whose endless loop is modelled for any finite sequence of rounds. The loop of vprintf has
-- fuel for one pass more than the format has characters, which is enough for the formats of
-- PrintfToStream.Format.Pieces; one pass more than the dump has rows is enough for the hexdump. An
-- `int` that counts characters past 2 ^ 31 - 1 is undefined.
--
-- System calls, malloc and libvdeslirp are not part of the repository: their answers are arguments,
-- and what is assumed of them is a hypothesis (Daemon.Switch.Connect.IsDocumented,
-- Daemon.Switch.Lifecycle.CanAllocate). The refinement to a pool
-- is of sequential calls; in Threads a section that holds the mutex is one step, and so are the two
-- asserts of a call on an item, and a write to an item. The semaphores of Threads are counters; what
-- PosixSemaphore does if a call of the C library fails is only in its definitions. Not modelled are the messages to stderr and the command line, whose
-- parser in arg/ is a copy of another project. The type double and its operations
-- are a parameter (PrintfToStream.Float.Doubles), and so is isprint.
pub mod Prelude
pub mod ByteStream
pub mod Counting
pub mod Daemon
pub mod PrintfToStream
pub mod HexdumpToByteStream
pub mod ProducerConsumer
pub mod FdIoStream
pub mod FdSelectHandler
pub mod Packets
pub mod PosixSemaphore
pub mod Bridge
pub mod Callback
pub mod Main
pub mod Mutex
pub mod SlirpHandler
pub mod UmlNetworkSocketPlug
pub mod Tests
