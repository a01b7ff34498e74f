-- ===== src/Lib.antt =====
-- A verification library for Homa, a user-space transport for remote procedure calls that schedules
-- messages by their remaining bytes (SRPT).
--
-- The parts of the program. A transport (src/TransportImpl.cc) owns a sender (src/Sender.cc) and a
-- receiver (src/Receiver.cc). Incoming packets are dispatched to one of the two: GRANT, DONE,
-- RESEND, UNKNOWN and ERROR to the sender, DATA, BUSY and PING to the receiver. The sender queues
-- messages in SRPT order and sends their granted packets; the receiver assembles messages,
-- schedules those that need grants, by peer and in SRPT order, sends GRANTs, and asks with RESENDs
-- for packets that are missing. Both find their messages in 256 buckets, each with its timeouts. A
-- driver (src/Drivers) gives and takes the packets; logging, counters and identifiers of threads
-- (src/Debug.cc, src/Perf.cc, src/ThreadId.cc) stand beside them.
--
-- The files. `Intrusive` models the lists of src/Intrusive.h as sequences of addresses, and
-- `Intrusive.Nodes` with their pointers; the rest uses the sequences. `Fake` models the network of
-- src/Drivers/Fake/FakeDriver.cc, `Timeout` src/Timeout.h, `Policy` src/Policy.cc, and `Protocol`
-- the identifiers and headers of src/Protocol.h. `Sender` has the state of the sender; its children
-- `Messages` (allocMessage, sendMessage, cancelMessage, dropMessage), `Handlers` (the
-- handle...Packet functions), `Transmit` (trySend) and `Expiry` (checkMessageTimeouts,
-- checkPingTimeouts, checkTimeouts, poll) have its operations, and `Operations` their sequences.
-- `Receiver` has the state of the receiver; its children `Messages` (the members of a message),
-- `Schedule` (schedule, unschedule, updateSchedule), `Handlers` (the handlers of packets,
-- receiveMessage, dropMessage), `Grants` (trySendGrants) and `Expiry` (the timeout checks, poll)
-- have its operations. `Transport` has processPacket, processPackets and poll. `ObjectPool` models
-- src/ObjectPool.h, and `Dpdk` the driver of src/Drivers/DPDK/DpdkDriverImpl.cc: the buffers of
-- packets, with its children `Sending` (sendPacket) and `Receiving` (receivePackets), and `Control`
-- (the send of src/ControlPacket.h). `StringUtil` models src/StringUtil.cc, `Debug` the levels and
-- the policy of src/Debug.cc and `Debug.Logging` its logger, `Perf` the counters of src/Perf.h and
-- src/Perf.cc, and `ThreadId` src/ThreadId.cc. Names are those of the code in snake_case. The other
-- children hold proofs, and `Tests` and `RaceTests` concrete instances; `Base` is shared.
--
-- How the code is modelled. Messages are records at addresses of a heap, and lists hold addresses,
-- so aliasing is that of the code. An operation is a function from the state before to the state
-- after, as one thread runs it. What goes to the driver is recorded in the state. The driver, the
-- cycle counter, the hash function and the allocator of messages are parameters. Conditions of
-- `assert` are taken to hold. Integers are natural numbers, with wrap-around written out where
-- unsigned arithmetic may wrap; `int`s are taken to be below 2^31. A function that throws returns
-- an option.
--
-- Threads. `Sender.Operations` has the operations of the sender one after the other, in any order,
-- where the allocator gives out no address of a message in progress. Locks and the flag `sending`
-- are left out: the sender and the receiver are modelled as one thread runs them. `Sender.Races`
-- shows what may happen where trySend has given queueMutex back and not yet taken the mutex of a
-- bucket.
--
-- Loops. The loops over timeouts take one more round than there are timeouts, and trySend the
-- rounds that `Sender.Transmit.rounds` computes from the queue and the granted packets. The results
-- below include that this is enough.
--
-- Bytes. `Protocol.Wire` has the packed headers as bytes of a payload, on a little-endian host.
-- `Sender.Buffer` has the packets of an outgoing message with their bytes (append, prepend,
-- reserve), and `Sender.Metadata` the headers that sendMessage writes into them; the rest of the
-- sender counts packets and bytes only. `Transport.Delivery` puts them together with the receiver.
-- Loops there take as many rounds as there are bytes left. `Dpdk.Frames` has the frames of the DPDK
-- driver in bytes. DPDK itself is an argument: what its functions answer is passed in, and the
-- calls of them are recorded.
--
-- Not modelled: the queue estimator, the rate of loss of the fake driver and cycles_per_second,
-- which are floating-point; the initialization of the DPDK driver, which only calls DPDK and the
-- system; locks, and interleavings of threads other than the one of `Sender.Races`; Tub and the
-- container utilities, which the protocol does not use; formatting by vsnprintf and the text of
-- addresses; code locations and exceptions; the tests.
pub mod Base
pub mod Intrusive
pub mod Timeout
pub mod Policy
pub mod Protocol
pub mod Sender
pub mod Receiver
pub mod Transport
pub mod Fake
pub mod ObjectPool
pub mod Dpdk
pub mod StringUtil
pub mod Debug
pub mod Perf
pub mod ThreadId
