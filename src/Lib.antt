-- ===== src/Lib.antt =====
-- The broker of Message-Driven-Event-Queue: a publish-subscribe message broker over a binary TCP
-- protocol (broker/include, broker/src).
--
-- A client's bytes come in over TCP. TcpServer cuts them into frames by Protocol and hands each
-- frame to the handler of main, which subscribes clients in the TopicRouter, logs published
-- messages in the WalWriter and puts them into the main SafeQueue. The dispatcher takes messages
-- from that queue, asks the TopicRouter for the targets and sends frames to them; the AckEngine
-- watches each delivery until it is acknowledged, and pushes it again or to the dead letters when
-- it is refused, expires or loses its client. At start the WalWriter replays its file into the
-- queue.
--
-- The files:
-- - Message: broker/include/Message.hpp. MessageType, Message, ClientId.
-- - Protocol: broker/include/Protocol.hpp. The encoders and decoders under their names; proofs in
--   Protocol/Endian (byte order), Protocol/Header, Protocol/RoundTrip and Protocol/Decoding (input
--   from outside).
-- - TcpServer: the reader of one connection, handle_client of broker/src/TcpServer.cpp. next_frame
--   is one round of its inner loop, parse the loop, receive one recv; proofs in TcpServer/Parsing,
--   TcpServer/Chunks and TcpServer/Stream. TcpServer/Sending has send_to, TcpServer/Lifecycle
--   start, stop and the destructor, and TcpServer/Accepting the accept loop by itself; in the
--   broker a connection that is accepted and the end of one are moves of Broker/Threads.
-- - SafeQueue: broker/include/SafeQueue.hpp. push, pop and try_pop_for as functions under the
--   mutex, where none is a call that waits; SafeQueue/Fifo has the histories of all threads,
--   SafeQueue/Monitor the condition variables.
-- - TopicRouter: broker/src/TopicRouter.cpp. subscribe, unsubscribe, matches and route on the
--   subscriptions; proofs in TopicRouter/Matching, Membership, Invariant, Routing, Reach,
--   Fairness, Decimal (std::to_string), and Unordered, Reordering and Histories (the order in
--   which the unordered maps are walked).
-- - WalWriter: broker/src/WalWriter.cpp. append and acknowledge, the two halves of a round of
--   flush_thread_loop, and replay; proofs in WalWriter/Format, Reading, Replay, Cut (a file cut
--   short), Flushing and Torn. WalWriter/Closing has the destructor.
-- - AckEngine: broker/src/AckEngine.cpp. track, ack, nack, client_disconnected and redelivery (one
--   round of redelivery_loop) under their names, with the pushes that each makes as its output;
--   proofs in AckEngine/Keys (the map), Deadlines (the priority queue), Expiry, Disconnection,
--   Invariant, Conservation, Redelivery and Retries.
-- - Broker: broker/src/main.cpp. on_frame, the rounds of the dispatcher, the DLQ logger and the
--   scanner as programs of atomic calls (Program), advance for one call on the shared variables;
--   Broker/Threads has the threads, a move of one of them, and boot; proofs in Broker/Steps (what
--   a move was), Copies, Custody, Accounts and Audit (where every message is), Restart and Logging
--   (from one start to the next), Dispatching, Publishing, Scheduling and EndToEnd (a publication
--   through all components), Calls (one call of the AckEngine as a whole), Acknowledging,
--   Refusals, DeadLetters (with AuditText for the text of the audit message) and Leaving (what the
--   answers of a client and its leaving do), Deadlock and Descriptors. Broker/Config has the
--   settings of main, with Config/Settings for std::stoi. Broker/Shutdown has the end of main;
--   proofs in Shutdown/Hanging, Shutdown/Returning and Shutdown/Reopening (from a start over the
--   shutdown to the next start).
-- - Prelude: shared notation and lemmas: lists and tests on native numbers, decidable equality,
--   maps as lists of entries, bit operations, texts as bytes.
--
-- Bytes are numbers below 256; unsigned words are numbers with their wrap-around written out. The
-- host is little-endian, as the byte swaps of the source suppose. Calls under a mutex are
-- functions; what the threads do is a sequence of such calls, a step relation, or in Broker a list
-- of moves, each one atomic call of one thread, chosen by the environment. Unordered maps are
-- lists in the order of iteration; a new key stands last, and TopicRouter/Histories allows for any
-- other order. A send in Broker looks the client up and gives the whole frame to its socket in one
-- step; what short and failed sends do is in TcpServer/Sending by itself, and that another thread
-- closes the socket between the lookup and the send is not modelled.
--
-- Fuel: the parse loop of TcpServer and the scan of WalWriter run on the number of bytes in hand,
-- which is enough since each round takes a byte at least; std::to_string runs on more than the
-- number itself.
--
-- Not modelled: sockets, threads and files as such, console output, the 64 KiB threshold that only
-- wakes the flush thread earlier, memory exhaustion, the join of the accept thread in
-- TcpServer::stop (which is taken to return), a negative ACK_TIMEOUT_MS (the AckEngine's timeout
-- is a natural number, a start with a negative setting is not covered), the cast of a remaining
-- length to int in send_to (a frame of 2 GiB or more), the detached readers after main has
-- returned, and the gateway, services and dashboard in JavaScript.
pub mod Prelude
pub mod Message
pub mod Protocol
pub mod TcpServer
pub mod TopicRouter
pub mod SafeQueue
pub mod WalWriter
pub mod AckEngine
pub mod Broker
