-- ===== src/Lib.antt =====
-- c-study: small C programs, each in a directory of its own and none calling another. Modelled are those
-- that keep state or transform data.
--
-- Base: lists, tests on numbers and integers, which the other modules share, and in Base/Threads lists of
-- threads with the weights by which the invariants of the two pools count them.
--
-- Lru: the cache of lru_cache01/lru_cache.c. LRUCacheSet, LRUCacheGet and LRUCacheDelete find an item
-- by the hash of its key (Lru/Hash) in a table of chains; a full cache makes room with a scan of the
-- whole table for the smallest age. Lru/Cache has the structures and all operations, Lru/Dump has
-- LRUCacheDump and LRUCacheFree. Each file with lemmas is named for what it is about. A chain is the
-- list of its items with their addresses, in the order of the `next` pointers; what `malloc` leaves in
-- the memory that LRUCacheNew and LRUCacheSet do not set, the `next` of a new item included, is a
-- parameter. The mutex makes each call atomic. A write to an item that is on no chain any more changes
-- no chain.
--
-- Jobs: thread_pool02/semaphore.c (Jobs/Semaphore) and thread_pool02/job_queue.c (Jobs/Queue), the
-- queue by which the thread pool hands its tasks to its workers. The queue is modelled with its `next`
-- pointers on a store; Jobs/Segment says which list of jobs the store represents, and Jobs/Refine and
-- Jobs/Drain compare the operations with those on the list. A read through NULL or through a released
-- address is a fault. JobQueueClear runs on fuel, and its count of jobs is enough.
--
-- Pool: thread_pool02/thread_pool.c with thread_pool02/thread.c. Pool/Worker has the steps of one worker,
-- Pool/System those of a pool with any number of workers and one user, Pool/Invariant the counting
-- behind Pool/Safety; Pool/Release and Pool/Progress are about runs that the pool can make. Pool/Waiter
-- adds the user's thread on the condition variable of ThreadPoolWait, and Pool/Wakeup is about it. The queue of
-- Jobs stands here as the list that it represents; Pool/Queue has the calls of it in each step, on memory.
-- Pool/Blocks has what ThreadPoolCreate allocates and ThreadPoolDestory releases, with thread.c; Pool/Loops,
-- Pool/Create and Pool/Started are about allocations that fail.
--
-- TaskPool: the older pool of thread_pool01/thread_pool.c, in the same style. TaskPool/TaskList has the
-- linked list of tasks on a store (with the store of Jobs), TaskPool/Worker the steps of a thread,
-- TaskPool/System the pool with its threads and its user, TaskPool/Hang a run of it. The walk to the end
-- of the list runs on fuel, and the number of tasks is enough.
--
-- ReadLine: read_line of read_line/main.c over a list of results of the system call (ReadLine/Loop).
--
-- Shell: simple_shell01/shell.c. Shell/Line has lsh_read_line, Shell/Tokens lsh_split_line, Shell/Execute
-- lsh_execute with the built-in commands and lsh_launch, Shell/Loop `main`; Shell/Words and Shell/Script are
-- about command lines that are written out. A write outside of a buffer is an error of the model. What
-- `fork` and `waitpid` report is an argument. The split runs on fuel, one more than the length of the
-- line, and `main` on fuel, for which one more than the length of the input is enough.
--
-- Files: apue/section04/count_file_types.c. Files/Walk has the callback and the walk over a tree of
-- nodes as it is meant, Files/Count what the counters then add up to. Files/Buffer has dir_walk in the
-- buffer of the path, with `realloc` as an argument and a fault for a bad use; Files/Holding and
-- Files/Short are about paths that stay below half of the buffer, Files/Moved about longer ones.
-- Files/Printed is about `main` as a whole.
--
-- Filters: the programs of futuu_no_linux_programming. Filters/Input has what they read, Filters/Wc
-- section05/wc.c and section06/wc2.c, Filters/Cat section05/cat.c and section06/cat2.c, Filters/Blocks
-- section06/cat4.c, Filters/Escape section06/cat3.c, Filters/Head section07/head3.c, Filters/HeadMain
-- `main` of section07/head1.c and head2.c, Filters/Mains `main` of section05/cat.c and wc.c,
-- Filters/EchoPrint apue/section01/echo_print.c, Filters/Tail section07/tail1.c, with Filters/Ring on
-- its buffers and Filters/LastLines on what it prints. The loop of cat4.c runs on fuel, and one more
-- than the length of the file is enough.
--
-- Snake: the game of snake01/main.cpp. Snake/Point has points and the snake, Snake/Board the board with
-- MoveSnake and GenerateNewFood, Snake/Display what is drawn, Snake/Game ReadNextAction and `main`. The
-- points that the random distributions draw and the keys that `getch` gives are lists; a loop that goes
-- on when the list of draws is used up has no result. Snake/Cells, Snake/Move and Snake/Invariant lead
-- to Snake/Play, Snake/Rules to Snake/Turn.
--
-- Opening: how the servers and two clients make their sockets, as chains of calls of which each one may
-- end the program.
--
-- Chat: the server of HandsOnNetworkProgrammingWithC/tcp_server_chat01/main.c. Chat/Server has the loop
-- over the ready descriptors and the loop that sends to the others, Chat/Inbox what one client gets,
-- Chat/Handle one ready descriptor, Chat/Deliver a round, Chat/Program the whole of `main`. What
-- `select`, `accept` and `recv` give is an argument, with the descriptors to which `send` raises
-- SIGPIPE, and so is FD_SETSIZE, which is also the fuel of the loop and is enough.
--
-- Echo: the servers that answer in upper case, and their clients. Echo/Connection has handler of
-- multi_thread_server01/server.c and the read loop of prefork_server01/main.c, with `toupper` as an
-- argument, Echo/Accept `main` of the first, Echo/Prefork the loop of a child of the second over its clients,
-- Echo/Family its `main` with all children, Echo/Datagram `main` of v6_upcase_echo/server.c. Echo/Tcp has
-- multi_thread_server01/client.c and what it makes of an answer of handler, Echo/Udp v6_upcase_echo/client.c
-- together with its server, Echo/Clients `main` of both clients.
--
-- Passing: send_fd_unix_socket, a server that hands an open file to each client. Passing/Programs has
-- do_sendmsg and the loop of server.c with the descriptors that it holds, do_recvmsg and `main` of
-- client.c; Passing/Leak counts the descriptors.
--
-- Uv: the callbacks of libuv_tcp_server01/main.c (Uv/Server). Which callbacks libuv calls, and what `malloc`
-- gives, is a list of events. Uv/Blocks counts addresses, Uv/Account the blocks that are allocated, and
-- Uv/Memory follows them through any list of events.
--
-- Command: apue/section01/run_command.c (Command/Loop), and sessions of it (Command/Session). `main` runs on
-- fuel, and two more than the number of lines, as `fgets` cuts them, is enough.
--
-- Signals: signalfd01/main.c as a step relation with the pending signals of the kernel (Signals/Process), and
-- the lines that it prints (Signals/Lines).
--
-- Page: HandsOnNetworkProgrammingWithC/tcp_server01/main.c. Interfaces: interface_address/main.c beside it.
--
-- Counter: the two processes of eventfd01/main.c as a step relation (Counter/Processes), and the sums that the
-- parent reads (Counter/Sums).
--
-- Ares: c-ares01/main.c. What it uses of c-ares, which is no part of the repository, is a record of operations
-- with their documented laws (Ares/Library), a parameter of Ares/Lookup and Ares/Wait. wait_ares runs on
-- fuel; Ares/Tests has a library that keeps the laws.
--
-- Tee: linux/tee01/main.c (Tee/Loop), and its two outputs (Tee/Copies).
--
-- Each directory of a program has a module Tests with runs at concrete inputs.
--
-- Not modelled are the programs that only call libraries or the system (the descriptor and identity
-- examples of apue/section01, libc and linux/fexecve, ncurses01, gstreamer, float128), test drivers,
-- and formatted output.
pub mod Base
pub mod Ares
pub mod Chat
pub mod Command
pub mod Counter
pub mod Echo
pub mod Files
pub mod Filters
pub mod Interfaces
pub mod Jobs
pub mod Lru
pub mod Opening
pub mod Page
pub mod Passing
pub mod Pool
pub mod ReadLine
pub mod Shell
pub mod Signals
pub mod Snake
pub mod TaskPool
pub mod Tee
pub mod Uv
