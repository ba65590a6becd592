-- ===== src/Lib.antt =====
-- A verification library for the state-threads port of this repository and its servers:
-- cooperative threads on Windows, with the condition variables, locks, sleep queue, stacks and
-- thread-specific data that sched_win.cpp, sync.cpp, key.cpp, stk.cpp, lock_free_queue.cpp and
-- common.h implement, the calls on databases of db_sqlserver.cpp, the video server (server) and
-- the platform server (HMSyncPlatformServer) that run on them.
--
-- The parts, and the files that model them. A definition has the name of the function it models.
--   * Base: lists, runs that may fault, the 32-bit arithmetic of `st_utime_t` (common.h).
--   * Clist: the circular lists of common.h as `next` and `prev` fields of links. Clist/Ring says
--     which list of members a ring stands for, Clist/Insert and Clist/Remove what the macros do to
--     it. All other modules have lists where the code has rings.
--   * SleepQueue: the sleeping threads of sched_win.cpp, each with the time from the one in front.
--     SleepQueue/Deadlines reads absolute times off the gaps; Insert, Delete and Expire are about
--     `_st_add_sleep_q`, `_st_del_sleep_q` and the part of `_st_vp_check_clock` that walks it.
--   * Vp: the state of the scheduler, `_st_this_vp` with all threads, locks and conditions.
--     Vp/Invariant says where a thread of each state may be queued, Vp/Moves how it moves.
--   * Sched: interrupts, dispatch and the clock (sched_win.cpp).
--   * Sync: conditions, locks and sleeping (sync.cpp).
--   * Thread: creation, exit, join, and the completion of I/O (sched_win.cpp).
--   * Key: thread-specific data (key.cpp).
--   * Stk: the cache of stacks (stk.cpp) and the layout of a new one (sched_win.cpp).
--   * LockFree: the queue of completed threads (lock_free_queue.cpp). LockFree/Concurrent has calls
--     of the enqueue that interleave, access by access: Own says what each call knows of the queue,
--     Links, Kept, Linked and Steps are about one step, Runs about all, Solo about a call that is
--     alone, and Freed about a call that a dequeue overtakes.
--   * Fifo: the stack of thread cells (lock_free_queue.cpp).
--   * Netfd: descriptors, their free list and their data (io_win.cpp).
--   * Io: errors of Winsock, and reading over several calls (io_win.cpp).
--   * Proto: headers, references to messages, and the queue of messages (server/proto.hpp,
--     server/pu_proxy.hpp).
--   * Proxy: the thread that sends the messages of a device, its socket, and the references to it
--     (server/pu_proxy.cpp, server/proto.hpp). Proxy/Clients is about the clients that watch a
--     device, Proxy/Watching about the thread of one of them, and Proxy/Received about what a device and a client send (server/cu_proxy.cpp).
--   * Machine: the threads together. Machine has the calls of a thread as data and their steps;
--     Dispatch is about `_st_vp_schedule`; Calls, Locks, Wakes, Life, Create and Ends about what each
--     call leaves, and Acts about all of them; Idle about a round of `_st_idle_thread_start`, Steps
--     about runs, Alone about the threads marked as running, Fair about turns, and Stale about a
--     completion for a thread that waits for a lock.
--   * Text: byte texts, and what the platform server uses of the standard library.
--   * Http, Xml, Records: requests and replies of the platform server
--     (HMSyncPlatformServer/SMUSync.cpp), and the cursor in a parsed text
--     (HMSyncPlatformServer/xml.cpp). Http/Reading is about `ReadInfo`, Http/Decimal and Http/Length
--     about the length in a header, Records/Walk about the loop of `ParseWebService`.
--   * Config: the configuration file (HMSyncPlatformServer/ParseCfg.cpp), and the start of the
--     platform server with it (HMSyncPlatformServer/server.cpp). Config/Direct reads the values
--     without the cursor, Config/Start is about a file with all of them.
--   * Database, SyncServer: the commands of a request on the database
--     (HMSyncPlatformServer/DatabaseSync.cpp), and the results that are sent
--     (HMSyncPlatformServer/SyncServer.cpp).
--   * Video: frames on their way to the clients of a device (server/pu_proxy.cpp,
--     server/cu_proxy.cpp); Video/Rounds is about a round of a client, Video/Handout about
--     the references to a frame.
--   * Handler: the logins (server/server.cpp); Handler/Login is about the registered devices,
--     Handler/Auth about the bytes of a login.
--   * DbServer: the calls on a database and the thread that carries them out (db_sqlserver.cpp);
--     DbServer/Connecting is about opening a connection.
--   * Examples: tests, and the theorems at concrete inputs.
--
-- Threads switch only where the code calls `_ST_SWITCH_CONTEXT`. A function that does so is two
-- definitions: one up to the switch, and one, with `_resumed` in its name, that goes on with
-- whatever state the other threads have left. `none` is a failed `ST_ASSERT` or an access to memory
-- that is not allocated. Threads, locks, conditions and addresses are numbers. `unsigned long` has
-- 32 bits, and its sums and differences wrap; the theorems on the sleep queue name the bounds below
-- which they do not.
--
-- The loops are structural but for those of LockFree and Fifo, which have fuel; their theorems say how many
-- rounds are enough: one more than the nodes that the tail lags behind for `_st_lock_free_enqueue`,
-- two for `_st_lock_free_dequeue`, one for `st_stack_push` and two for `st_stack_pop`. The loop of
-- `ParseWebService` has fuel too: one more round than there are further records is enough, where
-- all of them are whole.
--
-- In Machine the environment chooses the call that the running thread makes next. What a call asks
-- of its caller is `Allowed`: objects that exist, times that fit their type, for
-- `st_cond_broadcast` a queue with no thread twice, and for `st_thread_create` a stack whose thread
-- is gone. A round of the idle thread in a run takes only distinct threads that wait from the
-- completion queue (`AllWait`). The program does not see to that: a completion that comes after an
-- interrupt finds its thread elsewhere, and the states behind it are outside of what is proved.
--
-- Simpler than the code: a round of the idle thread does not end with the last active thread; the
-- allocations of `st_thread_create` for the context of its I/O succeed; `watch` starts at a device
-- that is there, and its body is not copied; `send_messages` writes a round's messages in one piece,
-- although `st_write` switches threads; a login without a number is a fault for all types.
--
-- Not modelled: the switch of contexts itself (md.h), `VirtualAlloc`, the calls of Winsock and
-- the completion port (io_win.cpp), whose results are parameters; ADO, which is a parameter of
-- DbServer, the database calls as Database sees them, which are a parameter there, and TinyXML,
-- which is a parameter of Xml; closing a connection to a database
-- (db_sqlserver.cpp); OpenSSL, which is a parameter of Config; the services and the logs of the
-- platform server (HMSyncPlatformServer/server.cpp) and the supervision server; the queue that
-- lock_queue.h copies; the threads of the heartbeat and of listening of the server, and its copy
-- of TinyXML (server); and sched.c and io.c, which are the
-- originals that the Windows files replace. The calls of the enqueue
-- interleave in LockFree/Concurrent, without those of the dequeue; the calls of Fifo do not.
pub mod Base
pub mod Clist
pub mod SleepQueue
pub mod Vp
pub mod Key
pub mod Stk
pub mod LockFree
pub mod Sched
pub mod Sync
pub mod Thread
pub mod Machine
pub mod Text
pub mod Database
pub mod Http
pub mod Xml
pub mod Config
pub mod Records
pub mod SyncServer
pub mod Netfd
pub mod Io
pub mod Fifo
pub mod Proto
pub mod Proxy
pub mod Video
pub mod Handler
pub mod DbServer
mod Examples
