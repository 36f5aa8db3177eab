-- ===== src/Lib.antt =====
-- SOK, a web server for several sites: epoll, worker processes and threads, HTTP and HTTPS on the
-- same ports. This library models what the server does from its start to its end: the processes, the
-- ports, each connection from its first bytes to the bytes that go back, and what is kept between
-- connections.
--
-- How the parts meet. `main` (SOK.cpp) reads the configuration (Core/mstd/yaml.hpp), forks worker
-- processes (Core/utils/ForkManager.hpp), and waits for commands. Each worker listens on the port of
-- every server in the configuration; it (Core/mstd/EpollManager.hpp) calls `dispatch_protocol`
-- (Core/utils/ProtocolDispatcher.hpp) on a readable connection, which peeks at 16 bytes, finds the
-- port's site (Core/utils/SiteConfig.hpp) and calls `handle_http` or `handle_https`
-- (Core/protocols). Both take files from a cache each (Core/mstd/fileCache.hpp). `handle_https`
-- keeps one object of OpenSSL for each descriptor. If the handler returns false, the worker frees
-- the object and closes the connection.
--
-- - Base: the shared names; lists, texts as lists of bytes, signed numbers, association lists,
--   sums of weights over lists.
-- - FileCache: Core/mstd/fileCache.hpp. The recency list is a list of nodes with identities, the
--   map holds each file with its iterator, `current_size` wraps at 2^64. FileCache/Spec is the
--   abstract cache, one list of files in the order of their last use; FileCache/Links, Sizes and
--   Invariant say which states are valid, Load, Shrink and Refine relate the operations to Spec,
--   History follows whole runs, Serve states what a caller sees, Mime the table of types.
-- - Http: Core/protocols/http.hpp. Http/Scan, Headers, Decimal, Request and Parse are the reading
--   of a request (`parse_headers`, the streams' operators, the loop of `recv`), Http/Send is
--   `safe_write` and `send_http_response`, Http itself `handle_http`, in pieces: `handle_request`
--   from the first complete request on, `dispatch_method` from `method` on, `finish` for an answer
--   and the result after it.
-- - Https: Core/protocols/https.hpp in the same way. Https/Objects is `ssl_map` with the objects'
--   lifetimes: `live` are the objects that are not freed, `double_free` remembers a wrong free.
--   `cleanup` is what the worker of EpollManager.hpp does behind the handler.
-- - Yaml: Core/mstd/yaml.hpp. Yaml itself has the values and their readers `getValue`, `getObject`,
--   `getArray`. Yaml/Lines, Tree, Cursor and Parse are the class YAML: the tree that is being read,
--   with the pointers `currentMap`, `currentArray`, `previousMap` as places in it, the scalars, and
--   `parseFile` line by line. Yaml/Written and Print say what the usual layout of a configuration
--   is; Trimming, Places, Steps, Reading and RoundTrip read it back; OneLine has the items that do
--   not fit on the line of their dash, Numerals the numbers.
-- - Site: Core/utils/SiteConfig.hpp, and the loop of SOK.cpp that reads the ports. Site/Configured
--   goes from the configuration's text to the ports and the sites, Roots says which site a port gets.
-- - Dispatcher: Core/utils/ProtocolDispatcher.hpp, with the handlers' state passed through.
-- - Listen: Core/utils/SocketUtils.hpp, and the loop over the ports in `processWorker` of SOK.cpp.
--   A socket is bound to the 16 bits that `htons` keeps of a port, or, where they are 0, to one that
--   the kernel chooses. Listen/Registry is `FdPortRegistry`, Serving relates it to the open sockets,
--   Reuse follows a descriptor that the kernel gives twice.
-- - Children: Core/utils/ForkManager.hpp and the handler of SIGCHLD in SOK.cpp, as a step relation
--   with the kernel's table of children. Children/Reaping follows what is known of a child.
-- - Worker: one worker process, an event at a time: what `epoll_worker` does with an event, with the
--   dispatcher, the registry and the handlers' state together. Worker/Start is `processWorker` of
--   SOK.cpp up to the loop, with `create_ssl_ctx` and the making of the pool; a worker whose pool is
--   without a thread is `starves` there, and the rest is about workers with one. Objects follows the
--   objects of OpenSSL, Ports goes from the configuration's text to the sockets, Steady has what
--   other connections leave alone, Requests one GET request, Serving puts them together.
-- - Main: `main` of SOK.cpp with Core/utils/Config.hpp: `start` is what stands before the loop,
--   `round` one turn of it, `restart` the command. A turn carries what is typed, what signals
--   come meanwhile, what the file holds and what `fork` answers; each child is noted with what it
--   was given. Main/Forked and Rounds follow the children, Input is about the end of the loop,
--   Restart about a configuration that has changed, Serving goes from the start to an answer.
-- - Epoll: Core/mstd/EpollManager.hpp, one worker as a step relation: the threads of the pool that
--   stand before, in or behind `handle_connection`, the loop on `epoll_wait`, the kernel's open
--   descriptors. Threads counts the threads on a descriptor, Exclusion and Reuse follow them.
-- - Pool: Core/mstd/threadPool.hpp, the threads with the mutex and the condition variable, as a
--   step relation. Epoll takes from it only that a thread takes the first task.
--   Pool/Counts follows the tasks, Draining and Sleeping are about the destructor.
-- - Logger: Core/utils/Logger.hpp. Keeping is about the files at a rotation, Lines about all that is
--   logged. The other parts log and do not read the log; their lines are not in the models.
-- - Queue: Core/mstd/lockFreeQueue.hpp, which the server does not use, on a store of nodes. Chain is
--   the list that a queue holds, Order has calls one after the other, Interleaved two at a time,
--   Lifetime the nodes up to the destructor.
-- - Chars: Core/mstd/string.hpp, which the server itself does not use. Bounds and Calls say what
--   stays inside the buffer, Parts is `substr`.
-- - Callable: Core/mstd/function.hpp, with the variables that a `Function` may refer to as a store.
-- - Vector: Core/mstd/vector.hpp, which the server itself does not use. Growth follows its buffer,
--   Iterate has Core/mstd/iterator.hpp.
--
-- What stands outside is an argument: the bytes that `recv` and `SSL_read` deliver, the answers of
-- `write`, `sendfile`, `SSL_write` and `SSL_accept` as lists in the order of the calls, the
-- kernel's answers to the calls on a listening socket, how many threads can be made, and the
-- file system as what `stat`, `open` and `read` show of a path. So are, for the parser, whether
-- `push_back` moves a vector's elements (`moves`) and which texts `std::stod` accepts (`stod`), and for
-- the logger the clock and the answers of `open` and `rename`. The result `none` means that a call
-- has not returned with the answers given.
--
-- Bounds. Bytes are numbers, and nothing depends on their being below 256. Sizes wrap at 2^64.
-- The cache's loop of evictions runs on one round for each listed node and one more; each
-- round unlinks a node, and with no node nothing is counted. The loop over header lines runs on one
-- round for each byte and one more, and each line takes at least a byte. The loops of writes are by
-- recursion on the list of answers. A loop over a vector's iterators takes one round for each element
-- and one more, the queue's destructor one for each element that is left and two more. The loop of
-- `main` takes one turn for each that is given, and `waits` says that it has not ended with them.
--
-- Not modelled: the contents of OpenSSL; what `epoll_ctl` and `fcntl` answer for a connection; the
-- state that a callable keeps itself. In Worker and Main the handlers of one worker are taken one
-- after the other; only Epoll, Pool and Queue have several threads. A signal that comes while `main`
-- does not wait for a command is taken with its next wait. Allocation does not fail, so the handlers
-- of exceptions of both protocols have no work.
pub mod Base
pub mod FileCache
pub mod Http
pub mod Https
pub mod Yaml
pub mod Site
pub mod Dispatcher
pub mod Listen
pub mod Children
pub mod Vector
pub mod Worker
pub mod Main
pub mod Epoll
pub mod Chars
pub mod Pool
pub mod Queue
pub mod Logger
pub mod Callable
