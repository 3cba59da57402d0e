-- ===== src/Lib.antt =====
-- Verification library of the IOCP chat server: a Windows server (directory myIOCP) whose network
-- threads receive encrypted frames from clients and hand their payloads to one content thread,
-- which keeps players and rooms and asks a database worker to log users in.
--
-- The parts and their files, each file first naming the code it is about:
--
-- Prelude: shared names, list and byte operations, maps, and their lemmas.
--
-- RingBuffer: myIOCP/CRingBuffer.{h,cpp}, the receive buffer of a session. RingBuffer/Bounds has
-- its invariant, RingBuffer/Refine the queue of bytes it stands for.
--
-- Codec: `Encode` and `Decode` of myIOCP/CPacket.cpp. OpenSSL's AES and HMAC are the record
-- `Crypto`, an argument; `IsCrypto` says what the code relies on. Codec/Frame gives the bytes of a
-- frame, Codec/RoundTrip relates the two functions.
--
-- Packet: the object of myIOCP/CPacket.{h,cpp}, its positions, reads and writes. Packet/Bounds has
-- its invariant, Packet/Payload its view as a payload. PacketStore: `Alloc`, `AddRef` and
-- `Release`, with a packet named by its place in a list; PacketStore/Counts has the laws of the
-- counts, PacketStore/Filling those of a packet that is filled, and PacketStore/Covering compares
-- the counts with the references that are held.
--
-- SessionId: how a `SessionID` is put together and taken apart.
--
-- LanServer: myIOCP/CLanServer.{h,cpp}. LanServer/State has the session, what sessions share, and
-- the derived class's callbacks as a record; LanServer/Close, LanServer/Send and LanServer/Receive
-- have one function per method, in the source's order of effects; LanServer/Server has the calls
-- that find a session by its slot or id. Whether the system takes a `WSASend` or `WSARecv` and
-- what it reports are arguments, and `Slot` counts the operations that it holds.
-- LanServer/Lifetime, LanServer/Work and LanServer/Settle follow `ioRefCount` through the
-- handlers, LanServer/Slots, LanServer/Steps and LanServer/Reach through all states of a server,
-- LanServer/Leaving through the end of a session; LanServer/Stream and LanServer/Framing are about
-- the receive loop, LanServer/Queue and LanServer/SendOrder about the send queue, and
-- LanServer/Wire, with LanServer/Aside, about the order in which a session's packets reach
-- `WSASend`; LanServer/Rejecting is about frames that are refused, LanServer/Holding about the
-- packets' references that the sessions hold, LanServer/Stopping about `Stop` and the statistics,
-- LanServer/Starting has `Start` and `Stop` as a whole, which LanServer/Restart is about,
-- LanServer/Refusing is about ids that are refused, and LanServer/Racing is about two threads that
-- meet in one session.
--
-- Protocol, Player, Room, Db: myIOCP/Protocol.h, myIOCP/CPlayer.{h,cpp}, myIOCP/CRoom.{h,cpp} with
-- myIOCP/CRoomManager.{h,cpp}, and myIOCP/DBJob.h with myIOCP/CDBWorker.{h,cpp}. The connector's
-- two calls are the record `Database`, an argument, which Connector fills.
--
-- Chat: myIOCP/CChatServer.{h,cpp} and myIOCP/CContentQueue.{h,cpp}. Chat/State has the inbox, the
-- callbacks that fill it and the content thread's state; Chat/Handlers the handlers, which return
-- the packets they send as values of `Post`; Chat/Loop a round of `UpdateLoop`, Chat/Life its
-- turns with the statistics, `StartContent`, `StopContent` and `main` of myIOCP/main.cpp.
-- Chat/Invariant, Chat/Moves, Chat/Safety and Chat/Reach are about the agreement of players and
-- rooms, Chat/Requests about single requests, Chat/Replies about the bytes that are sent, and
-- Chat/Posting sends a `Post` through PacketStore and LanServer.
--
-- LockFree: myIOCP/CLockFreeStack.h, the stack of both pools: a step relation with a step for each
-- access to shared memory, run by any number of threads. LockFree/Invariant, LockFree/Others,
-- LockFree/Pushing and LockFree/Popping have the invariant and its preservation, LockFree/Refine
-- relates runs to a stack, and LockFree/Alone is about a call that nobody disturbs. An allocation
-- gives a node that is not in use, at an address below 2^47; a read of a freed node gives
-- anything.
--
-- Connector: myIOCP/CDBConnector.{h,cpp}, over ODBC as the record `Odbc`; the model adds the list
-- of the handles that are allocated. Connector/Resources and Connector/Calls follow them through
-- the calls. Worker: `Start` and `Stop` of myIOCP/CDBWorker.cpp, which put Db and Connector
-- together.
--
-- Client: the load-test client DummyClient/DummyClient.cpp, with its own copy of the codec, its
-- requests, `SendAll` and `SendPacket`; Client/Receive has `DrainRecv` and the interactive
-- receiver, with printed lines as values, Client/Console the interactive mode's commands,
-- Client/SignUp the request that one of them makes, Client/Console/Program the automatic mode, the
-- tamper test and the program's arguments, Client/Bot the thread of a bot over a record of
-- operations, `Link`, and Client/Online these operations by the client's functions.
-- Client/Sending, Client/Stream and Client/Returning are about the two directions, Client/Counting
-- about a bot's counters, Client/Asking and Client/Printing about a chat from one client through
-- the server's handler to another, Client/Console/Typing about a line that is typed, Client/Boxes
-- and Client/Credentials about a login request at the server.
--
-- Tests: concrete states that the theorems are applied to.
--
-- Numbers: a `LONG` counter and a session id are their bit patterns and wrap; sizes and positions
-- are `int`s that the invariants keep in range. Uninitialised memory is an argument (`Memory`).
--
-- Loops: `recv_loop` and `packet_loop` are given the number of bytes held plus one as fuel, and
-- each of their rounds that goes on takes a frame of at least 30 bytes out; `gather`, `drain`,
-- `drain_jobs` and `take_results` count the elements of the queue they empty, to which nothing is
-- added meanwhile. `send_loop` counts the bytes to send, `chat_loop` the chats, `observe` the
-- rounds that the clock leaves, and `batches` a round for each batch of up to 64 bots.
--
-- Handlers run one at a time: a critical section or an interlocked operation is part of one step,
-- and two handlers of one session do not interleave; LockFree alone interleaves threads, and
-- LanServer/Racing takes two interleavings of two threads in one session. The server's parts use
-- the pools as atomic stacks. Not modelled: sockets, threads and the completion port; the options
-- and addresses of sockets; times of waiting; the words of what is printed but for the client's
-- lines; and the stored procedures of the database. `SendChatTampered` is defined, but that the
-- server rejects what it sends rests on the strength of HMAC, which `IsCrypto` does not state.
pub mod Prelude
pub mod RingBuffer
pub mod Codec
pub mod Packet
pub mod PacketStore
pub mod SessionId
pub mod LanServer
pub mod Protocol
pub mod Player
pub mod Room
pub mod Db
pub mod LockFree
pub mod Connector
pub mod Worker
pub mod Chat
pub mod Client
pub mod Tests
