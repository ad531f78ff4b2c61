-- ===== src/Lib.antt =====
-- linux_socket_test: buffers, HTTP requests and responses, a memcached server, a process monitor,
-- timers and a server that uses them, a pool of processes, ttcp, netcat, chargen and rot13 servers, threads that deadlock, and processes on a pipe.
--
-- The program is a collection of network programs in C++. The parts with logic of their own are
-- two byte buffers, an HTTP request parser and response with a process monitor that uses them, a
-- memcached server, containers of timers with a server that closes idle connections by one of them,
-- a pool of processes, the two ttcp programs, of which one uses the second buffer, netcat, a
-- character generator and two rot13 servers. The HTTP parts and the memcached server use the buffer of the muduo library, which is a
-- parameter here.
--
--   Prelude         names and lemmas that all modules share: bytes, lists, slices, integers
--   Muduo           the interface of muduo::net::Buffer that the parser and the server use: its
--                   readable bytes, the search for "\r\n", taking and adding bytes
--   CircularBuffer  circular_buffer/circular_buffer.h and .cpp: the record has the members of the
--                   class, and each member function is the function of the same name. Inv has the
--                   invariant and the bytes a ring stores, Fifo the bounded queue it implements,
--                   Grow and Drain the operations on many bytes
--   Tbuf            tbuf/tbuf.h: append in its three cases (transfer, resize, room), retrieve,
--                   peek_int32, read_int32, readfd
--   Http.StdMap     std::map<string, string> of http/http_request.h, as a sorted list
--   Http.Request    http/http_request.h: class HttpRequest
--   Http.Context    http/http_context.h and .cpp: parse_first_line, and parse_request as rounds of
--                   its loop, one definition for each parse state
--   Http.Response   http/http_response.h and .cpp: class HttpResponse and append_to_buffer; Frame is
--                   about the bytes it writes. Prelude.Decimal has the numbers as printf prints them
--   Memcached.Item, Server, Tokens, Session, Loop
--                   memcached/server: item.h and .cpp, memcached_server.h and .cpp, the tokenizer
--                   and reader of session.h, the handlers of session.cpp, and Session::onMessage
--                   as rounds of its loop. Threads has the two calls of the store as the threads of
--                   the server run them under the locks of its shards, Linear what the locks give
--   WheelTimer      wheel_timer.h: class time_wheel. Agenda has the abstract view, the timers that
--                   are due after each number of ticks
--   ListTimer       list_timer.h: class sort_timer_lst; Sorted and Adjust are about adding, moving
--                   and deleting, Expiry about tick
--   HeapTimer       min_heap_timer.h: class time_heap on its array of pointers; Order has the heap
--                   order, Add, Down, Pop, Build and Tick the operations
--   PipeTest        pipe/pipe_test.cpp: its two processes; Output and Progress are about their runs
--   Deadlock        deadlock.cpp: its two threads; Runs has all their runs, which Codes compares
--   Chargen         chargen/chargen.h and .cpp: the message of class ChargenServer; Pattern has its bytes
--   Netcat          tpc/netcat.cpp: the copying loops of run, over write_n of Ttcp
--   EventRot13      libevent_test/simper_rot13_server.cpp: readcb, over an interface of libevent's evbuffer
--   TimerServer     list_timer.cpp: the main loop, cb_func and timer_handler over ListTimer. Table has
--                   the abstract view, a table of open connections with their last activity; Times
--                   and Moves are about the list, Closed about what is closed, Inputs and Refine about
--                   the events and turns of the loop
--   ProcessPool     half_sync_half_async.h: the constructor. Parent has run_parent (the choice of a
--                   child, SIGCHLD, SIGTERM) and Child has run_child and run; Safety, Fairness,
--                   Reaping and Shutdown are about the parent, Users and Ending about a child
--   Signals         half_sync_half_async.h and list_timer.cpp: sig_handler, addsig and the set-up of the
--                   pipe of signals; Delivery has what arrives, TimerServer.Alarms what becomes of it
--   Sockets         the calls on sockets and the table of descriptors, which accept_or_die and
--                   get_listenfd_or_die (Ttcp.Setup, Ttcp.Refused) and run and do_accept of the rot13
--                   servers (Rot13.Setup, EventRot13.Setup) use
--   Ttcp            ttcp/ttcp_blocking.cpp: write_n and read_n. Blocking has server_receive and
--                   client_send, Libev the callbacks of ttcp/ttcp_libev.cpp; Exact, Receiver, Waits
--                   and Sender are about the former, Turns and Chunks about the latter
--   Procmon         procmon/procmon.cpp: Stat has StatData::parse over a stream, Host the members of
--                   class Procmon and its readers of files, Sampling tick, Overview fill_over_fiew,
--                   Server on_request and on_message, Plot the drawing of procmon/plot.cc, with Rounding, Places and Curve; StatLine, Lines, Keys, Values,
--                   Shown, Window, Pages and Replies are about them. Prelude.Scan has atoi and the numbers that a stream reads
--   Rot13           libevent_test/low_level_rot13_server.cpp: rot13_char, do_read and do_write on
--                   the state of one connection
--
-- State is passed explicitly. An assertion that fails, an access outside a buffer and a call
-- through a null pointer are `none` (in the loops the result `fault`). A byte is a number below
-- 256 where this matters. A `size_t` sum or difference of the buffers is taken modulo 2 ^ 64, and
-- an `int` of the memcached server is its bit pattern below 2 ^ 32. An `int` sum or product of the
-- timer heap and of the drawing that overflows, and a conversion of a floating-point number that no
-- `int` can hold, are `none`. The pointer `curSearchPos_` of a memcached session is an address, which
-- the buffer may leave behind when it moves its bytes; and what `doGet` reads through its key, which
-- points to a string that is destroyed, is a parameter: any bytes of the same length.
--
-- The loops of parse_request and onMessage run on fuel. A round that goes on takes bytes from the
-- buffer, or changes the parse state once, so a number of rounds above the number of bytes in the
-- buffer is enough. The loops of the timer heap run on a fuel of the size of the heap and one more,
-- since an index moves along one path of the tree and a tick takes one timer in a round. The
-- search for a child has the fuel of the number of children, since it ends when it is back at its
-- start; the loop of the libev callback that of the bytes in the buffer and two more, since a turn
-- that goes on takes bytes, but for the one that reads the header. Loops over events and calls run
-- along the list of what the system gives.
--
-- Parameters: boost::lexical_cast of a header's value (a function to an optional integer),
-- boost::hash_range (any function of the bytes), the printing of an `int` by muduo::LogStream,
-- the files, the template engine, the local times, the floating-point numbers and ProcessInfo of the
-- process monitor, the users of the process pool, the results of read, readv, write, recv, send,
-- accept, fork, waitpid, epoll_wait and the calls on sockets, and the clock. A timer's callback is an event that tick reports; it does not change the container.
-- Pointers to timers are the timers' user data, with `none` for the null pointer, and a linked list
-- is the list of its nodes. The pipe to a child is the index of the child.
-- Threads and processes that run at the same time (Memcached.Threads, Deadlock, PipeTest) are a relation of
-- steps, taken in any order; a step is one access to what they share.
--
-- Not modelled: the set-up of event loops, the sockets of the pool and of the timer server, command
-- lines, the threads of the pool and of netcat (a message to a session is one step; Memcached.Linear is
-- about the threads behind it), logging and allocation failure, and the programs that only call the
-- system.
pub mod Prelude
pub mod Chargen
pub mod CircularBuffer
pub mod Deadlock
pub mod EventRot13
pub mod ProcessPool
pub mod Signals
pub mod PipeTest
pub mod Sockets
pub mod Rot13
pub mod Tbuf
pub mod Ttcp
pub mod ListTimer
pub mod TimerServer
pub mod WheelTimer
pub mod Muduo
pub mod Netcat
pub mod HeapTimer
pub mod Http
pub mod Memcached
pub mod Procmon
