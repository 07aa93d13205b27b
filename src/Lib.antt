-- ===== src/Lib.antt =====
-- Slipstream, a volume-aware execution engine: a model of the program and what is proved of it.
--
-- Market data and trades come in as packed frames over sockets. MessageReconstructor cuts the byte
-- stream into frames, GCMDDeserialiser turns a frame into a message, a queue hands the messages to one
-- thread, and that thread passes trades to VWAPService and ExecutionEngine. The engine answers with
-- orders, which OESerialiser turns into frames again.
--
-- The files, and the sources that they model (paths from the repository's root):
--   Prelude, Prelude/*      shared names; words, circular arrays, the outcome of a call that may throw
--   Codec/Frame             src/libs/networking/framing/FrameHeader.h, memcpy and reads of buffers
--   Codec/Gcmd, Gcmd/*      src/libs/networking/gcmd: messages, wire structs, both directions
--   Codec/Oe, Oe/*          src/libs/networking/oe: orders and reports, both directions
--   Reconstructor, */*      src/libs/networking/libslipstream_codec: recieve and getMessages
--   Concurrency/Spsc, Spsc/* src/libs/concurrency/SPSCQueue.hpp; Concurrency/Fifo is what it promises
--   Concurrency/Threads, */* the same file, the loads and stores of its two threads interleaved
--   Concurrency/Mpsc, Mpsc/* src/libs/concurrency/MPSCQueue.hpp, with any number of producers
--   Vwap, Vwap/*            src/slipstream/orders/VWAPService; Vwap/Window is the window it keeps, Vwap/Bag
--                           its trades in no order
--   Engine, Engine/*        src/slipstream/engine/ExecutionEngine and, in Engine/Report, ExecutionReportService
--   Dispatch, Dispatch/*    src/slipstream/market, orders/TradeMessageHandler, network/MasterMessageHandler
--   Receiver, Receiver/*    src/slipstream/network/NetworkMessageReceiver and ShutdownSignal.h; in
--                           Receiver/Overlap, one chunk after another for the reconstructor
--   Demultiplexer, */*      src/slipstream/network/MessageDeMultiplexer
--   Sender, Sender/*        src/slipstream/network/OrderMessageSender
--   Session, Session/*      src/slipstream/SessionControlHandler
--   Csv, Csv/*              src/libs/csvparser
--   Replay, Replay/*        src/market_client/MarketClient and src/order_client/TradeClient; Replay/Files is a
--                           file's text, Replay/Mains their main.cpp
--   Sockets, Sockets/*      src/libs/networking/ClientConnection and ServerConnection
--   Program, Program/Unsided src/slipstream/main.cpp: its options and services
--   Program/Decision, */*   the same services: how a trade is answered, by the trades that came before
--   Program/Report          what main prints at the end, by the messages and the orders sent
--   Program/Listening       the same file: its listeners and connections, made and closed
--   Program/Ending, */*     the same file: main's wait and destructors, with all its threads
--   Pipeline                src/market_client, order_client and slipstream/network: a file to the queue
--   System, System/*        both clients' messages in the queue, to the services behind it, and their orders
--                           to the order connection
-- A function has the name of the C++ function in snake case, and takes and returns the object that it
-- is called on. Modules named Tests hold runs and the theorems at concrete inputs.
--
-- Conventions. Numbers are unbounded, and each operation on a machine word has its wrap-around written
-- out; an int64_t is its bit pattern. A byte buffer is a list of bytes, words lie lowest byte first. An
-- exception is a value of Outcome; an access that C++ leaves undefined is `fault`. What a clock returns
-- is an argument.
--
-- Loops. removeOldTrades runs on 1024 rounds of fuel, as each round frees one of 1024 slots, and
-- getMessages on as many as there are bytes, as each call takes four at least; the theorems about both
-- show that this is enough, since they give the result that the loops have without the bound.
--
-- The loops over what comes from outside (rounds of the receiver and of the sender, lines of the operator,
-- messages that are popped) run over lists of inputs of any length, and those over text over the text.
--
-- The clients that replay a file run on fuel, for the rows and for each wait. A wait takes a round for
-- each millisecond at most, as each round sleeps one at least, and the time waited for is below 2 ^ 64.
--
-- Threads. The threads of the two queues are interleaved load by load and store by store; the acquire
-- loads and release stores are taken as sequentially consistent. The demultiplexer runs step by step,
-- and between two steps messages may arrive and the destructor may set its flag. In Program/Ending main and
-- its threads take turns, a round or a step at a time, in any order. Elsewhere a call is one
-- step, and what other threads do between calls is an argument.
--
-- Parameters. What the operating system answers to a call on a socket, what the clocks read, and what
-- connect, send and accept return are arguments. InboundMessageQueue is included by the source and is not in
-- the repository: its type and its operations are parameters of the receiver and of the demultiplexer,
-- which takes from it that it is first in, first out.
--
-- Not modelled: the command line, which CLI11 reads, but for the check of the symbol; weaker memory
-- orders than sequential consistency; and what setsockopt and shutdown do inside the operating system.
pub mod Prelude
pub mod Codec
pub mod Concurrency
pub mod Vwap
pub mod Engine
pub mod Reconstructor
pub mod Receiver
pub mod Session
pub mod Csv
pub mod Dispatch
pub mod Sender
pub mod Sockets
pub mod Replay
pub mod Demultiplexer
pub mod Pipeline
pub mod Program
pub mod System
