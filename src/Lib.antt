-- ===== src/Lib.antt =====
-- Models and proofs for DBwrapper, a library that keeps pools of connections to a database.
--
-- The manager (`connManager`) holds pools (`connPool`), a pool holds connections (`DBConn`, a
-- parameter of the templates). They talk over two message buses: a connection reports to its pool
-- that it is connected or lost, and a pool reports to the manager that it is empty, upon which the
-- manager drops it. A service discovery polls which connections there should be. A user asks the
-- manager for a connection, which it takes from its pools in turn. Underneath stands a wrapper of
-- libevent (`translib`): loops, timers with their manager, which also drive the heartbeat of a
-- connection, sockets, over which packets are framed with a header of four bytes, a client, and a
-- server that spreads its sessions over the loops of its dispatchers.
--
-- Beside it stand tasks (`task_base`), each with a loop, a queue of messages and an eventfd that wakes
-- it. The manager of the tasks finds them by name and sends them messages; its own task, TASK0, asks
-- all others for a sign of life and restarts those that gave none. The adapter of Redis is one such
-- task, the worker, which hands the commands of `redis_async_client` to hiredis and connects anew when
-- the connection is lost.
--
-- Files, with the code that they model:
--   ConnManager/Info       include/connManager/util.h: ConnInfo, operator==, operator<
--   ConnManager/Bus        include/connManager/messagebus.h: getUniqueID, register_handler (twice),
--                          call, remove_handler
--   ConnManager/Bus/Unordered
--                          the bus up to the order of its entries, as a multimap
--   ConnManager/Pool       include/connManager/connManager.h: connPool(), ~connPool(), add_conn and
--                          del_conn (of a pointer and of a description), get_conn; the pool's lists
--                          are `local_list` and `remote_list`
--   ConnManager/Manager    include/connManager/connManager.h: connManager(), add_pool, del_pool,
--                          get_pool with get_conn, add_conn, del_conn. `World` is the manager with
--                          the id counter, the two buses, and the connections it has started.
--   ConnManager/Manager/Reports
--                          the lambdas registered for CONN_INC, CONN_DEC, POOL_INC and POOL_DEC,
--                          and onConnected and onDisconnected of the template in
--                          include/connManager/connInterface.h
--   ConnManager/Discovery  include/connManager/serviceDiscovery.h: getConnInfo
--   ConnManager/Polling    include/connManager/connManager.h: what connManager() gives to its service
--                          discovery, and the rounds of it
--   ConnManager/DiscoveryTimer
--                          include/connManager/serviceDiscovery.h: serviceDiscovery() with its
--                          timer, ~serviceDiscovery()
--   Translib/EventFd       include/translib/eventServer.h, include/translib/eventClient.h:
--                          EventFdServer with its destructor and set_evfd_arg, EventFdClient::send
--   Translib/Timer         include/translib/timer.h, src/translib/timer.cpp: every operation of
--                          Timer; `fire` is libevent calling eventHandler
--   Translib/TimerManager  include/translib/timerManager.h, src/translib/timerManager.cpp: getTimer,
--                          auditTimer, killTimer; in Translib/TimerManager/Shared the same with
--                          the pointers to the timers, and the audit that the constructors start
--   Translib/TcpSocket     src/translib/tcpSocket.cpp: every operation; `on_event` is what may happen to it;
--                          in Translib/TcpSocket/Buffer getInputBufferLength,
--                          viewInputBuffer, readInputBuffer
--   Translib/Loop          include/translib/loop.h, src/translib/loop.cpp: Loop(), ~Loop(), start,
--                          stop, wait, get; `run_begin` and `run_end` are the ends of _run
--   Translib/FrameLoop     src/translib/frameLoop.cpp: FrameLoop(), setFrameInterval,
--                          curFrameRound, onBeforeLoop
--   Translib/HttpServer    src/translib/httpServer.cpp: listen, regHandler, genericCallback,
--                          mainCallback; src/translib/httpRequest.cpp: findHeaders, setHeader,
--                          setBody, setChunk
--   Translib/TcpClient     src/translib/tcpClient.cpp: TcpClient(), connect, handleEvent
--   Translib/TcpServer     src/translib/tcpSession.cpp: attach, onRead, handleEvent;
--                          src/translib/tcpServerDispatcher.cpp: getSession, addSession,
--                          removeSession, onFrame; src/translib/tcpServer.cpp: TcpServer(),
--                          setThreads, listen, stop, wait, getSessionDispatcher,
--                          listenEventCallback
--   Translib/Tpkt          include/translib/tcpServerTPKT.h: sendWithTPKT, onSessionRead
--   Translib/Tpkt/Client   include/translib/tcpClientTPKT.h: onRead()
--   Translib/Tpkt/Port     include/translib/tcpClientTPKT.h: connect_with_IP
--   Heartbeat              include/heartbeat/heartbeat.h: a round of the heartbeat, start, and
--                          the setters
--   Tasks/Message          include/task_base/util.hpp: MSG_TYPE, TASK_MSG
--   Tasks/Task             include/task_base/task_base.hpp, and manager_task of
--                          include/task_base/task_manager.hpp: constructors, init, in_queue,
--                          set_hb_interval, on_before_loop, start_hb
--   Tasks/TaskManager      include/task_base/task_manager.hpp: every operation of task_manager
--   Tasks/ManagerTask      src/task_base/task_manager.cpp: the function that start_hb gives to its
--                          timer, and on_message
--   Tasks/Processing       src/task_base/task_base.cpp: evfdCallback, process_msg
--   Tasks/Mailbox          the same with send2task, as the steps of several threads on one task
--   Redis/Command          include/adapter/redis/command.hpp: get_format_command,
--                          redis_formatCommand
--   Redis/Worker           include/adapter/redis/worker_task.hpp: worker_task
--   Redis/Reconnect        src/adapter/redis/worker_task.cpp: redisAsyncReconnect, connectCallback,
--                          disconnectCallback
--   Redis/Client           include/adapter/redis/interface.hpp: redis_async_client
--   Prelude                tests, lists, orders, ordered sets and maps, decimals
-- Proofs stand in the folder of their component. In ConnManager/Manager, `Wiring` says how pools and
-- bus fit together and `Soundness` is the invariant of a whole state, which `Turns` carries over a
-- request; `Lookup`, `Handling` and `Delivery` follow a report from the bus to the pool and to the
-- manager; `History` takes all sequences of steps; `Serving` is about requests, `Strands` and `LateId`
-- about new pools. In Tasks, `Rounds` and `Stalled` are about the heartbeat, `Answers` and `Exchange`
-- take a request through both queues, `Watch` and `Alive` all requests between two rounds, `Interval`
-- is about its timer, and `Wakeups` about the threads. In Redis, `Wire` reads what is formatted,
-- `Delivery` follows a command to hiredis, `Pipe` and `Pipeline` any calls with runs of the worker
-- between them, and `Lifecycle` a connection. In Translib, `Watched` is about an eventfd, `Lives`,
-- `Tidy`, `Frames` and `Serving` are about the life of a loop and of a client, about frames and about
-- the answer to a request, `Sessions` and `Routing` about the way of a connection to its session,
-- `Told`, `Events` and `Histories` about all sequences of steps of a server; in Translib/Tpkt,
-- `RoundTrip`, `Whole` and `Streaming` take packets from the send to the read, the last over a wire
-- that cuts them. In Translib/TimerManager, `Goes` and `Lives` are about how long a timer goes on, and
-- ConnManager/DiscoveryTimer/Dangling uses that.
--
-- Choices. An object is known by its address, and an operation that allocates is given the addresses
-- that it gets; a new pool gets one that no live pool has. A member that a constructor leaves
-- uninitialised is given too (`Residue`). Integers are natural numbers, and the id counter wraps at
-- 2 ^ 32; statements on fresh ids ask that it has not wrapped yet, `counter + 3 < 2 ^ 32` for a new
-- pool, which takes three ids. A report that would run a handler of a destroyed pool yields `none`.
-- What libevent returns is an argument of the timer, and its buffers are an interface, `Evbuffer`,
-- with what is relied on in `IsEvbuffer`. The read loops of Tpkt alone run on fuel, one for each
-- packet; more fuel than there are packets is enough. The view of a buffer is read after a byte was
-- taken from it, as the code does. A number is printed on fuel, one more than the number, which is
-- enough for its digits.
-- A task is known by its name, under which the map holds it, and a task that is erased is gone. An
-- eventfd is an interface, `EventFd`, with what its manual says in `IsEventFd`; so is hiredis,
-- `Hiredis`, whose state belongs to the worker, since its contexts are used in the worker's loop
-- alone. A boost::any is the sum of the types that the code stores in it, and a cast to another one
-- throws, which is `none`, like the use of a null pointer, of a context that was never set or was
-- freed, and the destruction of a std::thread that can be joined. A call of `restart`, which
-- subclasses write, is noted in `restarts`.
--
-- Not modelled: hiredis, which is a copy of another project, and the logger, which says that it is
-- one; the application server of include/translib/tcpServerApp.h, whose ring buffer is not in the
-- repository; log lines; locks, since every operation runs as one step; threads, but for the queue of
-- a task in Tasks/Mailbox; connect and disconnect of a connection, which the user writes, so that a
-- report may come at any time, in any order, with any ids; pointers to pools or connections that a
-- caller keeps, so that a pool which leaves the manager's list is destroyed there; the destructor of
-- the manager, whose call of remove_handler has no overload; the destructors of the server, of its
-- dispatchers and of FrameLoop, which destroy members that running threads use; service discoveries
-- whose cfgInc or cfgDec is not set, which those of a manager are.
pub mod Prelude
pub mod ConnManager
pub mod Translib
pub mod Heartbeat
pub mod Tasks
pub mod Redis
