-- ===== src/Lib.antt =====
-- nets is a reactor network library in C++: event loops wait for channels, a channel reads and writes
-- byte buffers, and passes what it read along a pipeline of handlers. This library models parts of it
-- from the source and proves what makes them correct.
--
-- The parts, and where they are modelled:
--   Memory.antt            arrays of bytes, checked copies and the ways that an operation can end
--   ByteBuffer.antt        nets/net/core/ByteBuffer.h and ByteBuffer.cpp: ByteBuffer is the record of its
--                          array and indices; ensure_writable, adjust_capacity, write_bytes, read_bytes are
--                          ensureWritable, adjustCapacity, writeBytes and readBytes. Values.antt has the
--                          typed reads and writes, Copies.antt the operations on whole buffers.
--   BlockingQueue.antt     nets/base/BoundedBlockingQueue.h: each method as its critical section; a run
--                          is any sequence of these
--   Timestamp.antt         nets/base/Timestamp.h and Timestamp.cpp
--   Timer.antt             nets/base/timer/Timer.h and Timer.cpp, with TimerManager.h and TimerManager.cpp
--                          in Timer/Manager.antt: the multimap is a list of entries in order
--   Pipeline.antt          nets/net/core/ChannelHandler.cpp and ChannelHandlerPipeline.cpp: the linked
--                          list of handlers, in a heap of nodes; Pipeline/Events.antt has the events of
--                          nets/net/core/SocketChannelHandlerPipeline.cpp and SocketChannelHandler.cpp
--   SocketChannel.antt     nets/net/channel/SocketChannel.h and SocketChannel.cpp: doWrite in the
--                          module itself, the write event in SocketChannel/Output.antt, the read event
--                          and shutdown in SocketChannel/Input.antt, its start and the writes of other
--                          threads in SocketChannel/Active.antt. The record holds the buffers that
--                          wait, what the kernel took, and what the channel did to its surroundings.
--   StackBuffer.antt       nets/base/StackBuffer.h: the fixed buffer that logs are printed into; its size
--                          is a parameter
--   StringUtils.antt       nets/base/StringUtils.cpp: trim and split, over lists of characters
--   ThreadPool.antt        nets/base/ThreadPool.h and ThreadPool.cpp: the control word, and in
--                          ThreadPool/Moves.antt each atomic move of runThread, releaseThread, execute,
--                          addThreadTask and shutdown; ThreadPool/System.antt interleaves them
--   EventLoop.antt         nets/net/core/EventLoop.h and EventLoop.cpp, with the eventfd of
--                          nets/net/channel/NotifyChannel.cpp; EventLoop/Rounds.antt has the loop of
--                          `run`, EventLoop/Channels.antt its map of channels, EventLoop/Group.antt and
--                          EventLoop/Shutdown.antt nets/net/core/EventLoopGroup.cpp
--   Promise.antt           the tasks that `submit` makes, of nets/base/ThreadPool.h and
--                          nets/net/core/EventLoop.h; ThreadPool/Promises.antt and EventLoop/Promises.antt
--                          have them in the runs of the pool and of the loop
--   Bootstrap.antt         nets/net/bootstrap/ServerBootstrap.cpp and AbstractBootstrap.h, with
--                          nets/net/bootstrap/Bootstrap.cpp in Bootstrap/Client.antt, and the channels of a
--                          server's connections in Bootstrap/Children.antt
--   Poller.antt            nets/net/poller/EpollPoller.cpp, with the events of nets/net/channel/Channel.cpp
--   Connector.antt         nets/net/channel/ConnectorChannel.cpp: its states, descriptors and retries
--   Server.antt            nets/net/channel/ServerSocketChannel.cpp, with dealwithEMFILE of
--                          nets/net/core/Socket.cpp: options, bind and accept
--   Address.antt           nets/net/core/InetSockAddress.cpp: the union of both address types, as bytes
--   Datagram.antt          nets/net/channel/DatagramChannel.cpp: bind, sends and receives;
--                          Datagram/Packet.antt has nets/net/core/DatagramPacket.cpp
--   Log.antt               nets/base/log/LogAppender.cpp and LogFile.cpp: buffers, batches and files
--   Logger.antt            nets/base/log/LogBuffer.cpp and LogFormatter.cpp: the lines; Logger/Levels.antt has
--                          nets/base/log/Logger.cpp, whose lines Log.antt appends; what `localtime_r`
--                          gives is an argument
--   Options.antt           setChannelOption of nets/net/channel/Channel.cpp, ChannelOption.h and the
--                          setters of nets/net/core/Socket.cpp
--   Prelude.antt           library names, list lemmas and integers
--
-- How they interact: a typed write is a write_bytes, and that is an ensure_writable and a copy. The
-- timers' callbacks act on the manager while `update` walks along it, so update_loop carries the
-- entries around its iterator and lets each callback add and remove timers there. Times are those
-- of Timestamp.
--
-- A channel appends to its last ByteBuffer or a new one, and sends their contents in order.
--
-- The threads of a pool take from the blocking queue by the critical sections of BlockingQueue.antt,
-- whose predicate is that the pool is shut down. The loop polls for as long as the timers of
-- Timer/Manager.antt allow, is woken by the eventfd, and runs what was added in between. The poller
-- turns a report into the ready events of channels, and Channel::handleEvent calls the error, the read
-- and the write handler in this order, which a connector depends on.
--
-- A bootstrap moves its options, handlers and callbacks to a channel, which gives them to the channels of
-- its connections, on the loop that the group has next. The links of a pipeline are in the handlers, so
-- the handlers of a server's list are linked once for all its connections: Pipeline/Rings.antt.
--
-- Bounds and fuel. `size_t` arithmetic is modulo 2 ^ 64. The loop of calculateNewCapacity has 64
-- rounds, and no further round can end it. The loops along a pipeline take one round for each
-- handler; a ring has no end, and runs out of any fuel. `writev` takes one round for each block. A
-- 64-bit value has at most 20 digits. `update` takes one reading of the clock for each round.
-- The control word of a pool is two's complement in the source and a natural number here, the status
-- above the 30 bits of the count, so a pool has fewer than 2 ^ 30 threads.
--
-- Not modelled: the system calls, whose results are arguments; the memory that `make_unique` asks
-- for, which is always there; the clock, whose readings are arguments; floating-point numbers other
-- than as bit patterns; wake-ups of condition variables, since a wait is a
-- move that is tried again; write errors of log files; multicast
-- groups; the text of addresses; signals; the start of the
-- threads of a group.
pub mod Prelude
pub mod Log
pub mod Logger
pub mod Memory
pub mod Options
pub mod Server
pub mod Address
pub mod Datagram
pub mod ByteBuffer
pub mod BlockingQueue
pub mod Poller
pub mod Connector
pub mod Bootstrap
pub mod EventLoop
pub mod Promise
pub mod ThreadPool
pub mod Timestamp
pub mod Timer
pub mod Pipeline
pub mod SocketChannel
pub mod StackBuffer
pub mod StringUtils
