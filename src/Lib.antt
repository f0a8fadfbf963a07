-- ===== src/Lib.antt =====
-- kk-proxy: a library of coroutines, io_uring awaiters, TLS streams and HTTP helpers for a proxy,
-- in kkp/kkp-core and kkp/kkp-http.
--
-- How the parts interact. A coroutine awaits an awaiter (kkp/uring/base_uring_awaiter.hpp), which
-- takes a submission entry of io_uring and names its own `io_data` in it. The event loop
-- (kkp/uring/uring_loop.hpp) waits for completions, stores the result in the `io_data` and resumes
-- the coroutine. A socket (kkp/net/socket.hpp) makes such awaiters. `ssl_stream`
-- (kkp/ssl/ssl_stream.hpp) lies over any stream that meets the concept `kk_stream`: its engine
-- (kkp/ssl/ssl_engine.hpp) is an SSL object between two memory BIOs, and the stream carries bytes
-- between the BIOs and the stream below. Errors are `result<T>` (kkp/kkp_traits.hpp) with the codes
-- of kkp/error_code.hpp. The HTTP part has tables of codes and names and a multimap of headers.
--
-- Which file models which part. Paths of the source are below kkp/kkp-core/include/kkp/ unless
-- they start with kkp/.
--   Common         tests, lists, the C `int`, bits of a word
--   ErrorCode      error_code.hpp, kkp/kkp-core/src/error_code.cpp, `result` of kkp_traits.hpp
--   Coro/Flag      `namespace flag` of coro/coro_base.hpp
--   Coro/Task      the promise and the awaiters of coro/task.hpp, over a memory of frames;
--                  in Coro/Task/Void that of `task<void>`
--   Coro/Promise   coro/promise.hpp; Coro/Alloc the allocation of a frame in coro/task.hpp
--   Coro/Handle    `task<T>` of coro/task.hpp as the owner of a handle, `this_context`, and
--                  `block_run`, `launch` and `launch_detached` of io_context.hpp
--   Coro/Program   coroutines, frames and the event loop together, with the states in
--                  Coro/Program/Machines: what the one thread does next (`tick`),
--                  and `block_run` of io_context.hpp. In Coro/Program/Eval is the reading of a body
--                  from the top to the bottom, with no frames and no loop, that it is compared with. In
--                  Coro/Program/Scoped are the programs that await what they launched, and no other
--                  address, and in Coro/Program/Invariant what holds of them between two ticks
--   Coro/Jobs      what is done to the frames of tasks in any order, as a step relation: also `launch`,
--                  `block_run`, the resumption for a completion, and the await of a task that stays where it is, or of a promise. In
--                  Coro/Jobs/Effect is what a step does to its frame, as a relation
--   Ssl/OpenSsl    what is called of OpenSSL: a record of operations, a parameter, and the documented
--                  behaviour that the theorems take as a hypothesis (`IsDocumented`)
--   Ssl/RawStream  the concept `kk_stream` of kkp_traits.hpp, a parameter, and what send(2) documents
--   Ssl/Status     ssl/ssl_common.hpp
--   Ssl/Engine     ssl/ssl_engine.hpp: `perform`, `write`, `read`, `ssl_read`, `ssl_write`; in
--                  Ssl/Engine/Ownership its construction, moves and destruction, with the
--                  allocation of OpenSSL as a parameter
--   Ssl/Pointers   ssl/kkp_openssl.hpp, the deleter and its unique pointers
--   Ssl/Run        how a stretch of a coroutine ends: on, by co_return, by throw, or out of fuel
--   Ssl/Stream     ssl/ssl_stream.hpp, with `send`, `recv` and `handshake` in Ssl/Stream/Send,
--                  Ssl/Stream/Recv and Ssl/Stream/Handshake. Ssl/Stream/Transfer has
--                  sequences of `send` on one stream and of `recv` on another, with a network
--                  between them, and Ssl/Stream/Ownership the construction, moves and destruction
--   Uring/Loop     uring/uring_loop.hpp and uring/io_data.hpp: `run`, `resume`, `resume_error`
--   Uring/Request  the calls of liburing that prepare an entry, with their arguments
--   Uring/Awaiter  uring/base_uring_awaiter.hpp and each `await_resume` of uring/awaiter/ and of
--                  `socket_accept_awaiter` of net/socket.hpp; in Uring/Awaiter/Kinds the
--                  constructors of uring/awaiter/
--   Uring/Kernel   a whole `co_await` with the kernel behind the ring, a parameter, and the
--                  documented behaviour of recv(2), send(2), read(2) and write(2) on memory
--   IoContext      `finish` and the constructor of io_context.hpp
--   Objects        what a program does with objects of one class that own a resource: the interface
--                  that `socket`, `server_socket`, `file`, `stream` and `task` fill
--   Descriptors    close(2), a parameter, and how often it was called for a descriptor, with success and
--                  without; what a failed call leaves of the descriptor is left open
--   Net/Socket     `socket` of net/socket.hpp: construction, moves, assignment, close, is_alive;
--                  in Net/Socket/Io `connect`, `send`, `recv` and `accept` as awaiters
--   Net/ServerSocket
--                  `server_socket` of net/socket.hpp: its construction, moves, `bind`, `listen`
--   Net/Address    net/address.hpp, `parse_from_ip` of kkp/kkp-core/src/net/address.cpp; the rest
--                  of that file in Net/Address/Resolve, and in Net/Address/Resolve/Freed with the
--                  list of getaddrinfo, which it frees
--   Net/Tcp        net/tcp.hpp
--   Net/Endpoint   net/endpoint.hpp
--   Fs/File        fs/file.hpp: construction, moves, assignment, destruction; in Fs/File/Io
--                  `read` and `write` as awaiters
--   OverUring      sockets and files on the kernel of Uring/Kernel, and in OverUring/RawSocket a
--                  socket as the stream of Ssl/RawStream. OverUring/Opened has the coroutines `open` and `of`
--   Stream         stream.hpp: `base_stream` over a socket and an `ssl_stream`. In
--                  Stream/Ownership its moves, destruction and close, with the descriptor
--   Http/Status, Http/HeaderNames, Http/Methods, Http/ContentTypes
--                  kkp/kkp-http/include/kkp/http/http_def.hpp
--   Http/Versions, Http/Session, Http/PingFrame
--                  versions.hpp, base_session.hpp and v2/frames/ping_frame.hpp beside it; Http/UriRef has
--                  `uri_ref` of http_common.hpp
--   Http/Headers   `headers` of kkp/kkp-http/include/kkp/http/http_common.hpp, and in
--                  Http/Headers/Refine the map from names to values that it refines
--   Utils/Hex      `to_hex_string` of kkp/kkp-core/src/kkp-core.cpp
--   Utils/Delay    the timespec of `delay` in utils.hpp; in Utils/Delay/Await the whole `delay`,
--                  with the kernel's clock as a parameter, of which a
--                  relative timeout and the refusal of a negative part are assumed
--   Utils/Defer    `defer` and `match` of kkp_traits.hpp
--   Tests          a null cipher and raw streams as instances of the parameters, and runs on them
-- Lemmas and theorems stand below the part that they are about.
--
-- State. An SslStream holds the state of the raw stream, of the SSL object with its BIOs and of
-- `leftover_`; a Loop holds `running_`, the `result_` fields by address, how many entries were marked
-- as seen and a world on which resumed coroutines act. The kernel and the peer act between two calls:
-- they are in the state of the raw stream, and in the list of what the waits return.
--
-- In Coro/Program a coroutine is a tree of what it does, its results of one type, and an awaited
-- task is a temporary, or one that was launched and stays where it is, in a task object that is
-- kept. A call of `launch` is on a stack until the thread comes back from the task. At each tick it is open
-- whether the submission queue is full, and which of the submitted entries the kernel completes next
-- (`Choice`), or with what error the wait fails, without an entry. With a full queue an awaiter
-- is ready at once with -10086, and `finish` writes through a null pointer, where the run stops
-- (`overrun`). In Coro/Jobs a step stands for what the thread does to one frame, the loop's resumption
-- for a completion among them, and which coroutine does it is left open.
--
-- Fuel. `send` gives each of its loops one round more than there are bytes to handle. The loop of
-- `recv` takes its fuel from the caller, and one round is enough for a buffer with room. The loops of
-- `handshake` take theirs from the caller, since they go on for as long as OpenSSL and the peer want.
-- `decimal` prints with one digit of fuel for each unit, which is more than there are digits.
--
-- Machine integers. A `size_t` given as an `int` is wrapped to 32 bits (`to_int`), and a difference of
-- two `size_t` to 64 bits (`sub_size`). An error queue code is narrowed to `int` the same way.
--
-- Addresses in memory are natural numbers, with a byte at each. What `int` becomes as an unsigned type is
-- `to_unsigned`. The timespec of a timeout is a cell of its own.
--
-- Socket addresses are the bytes of a Linux `sockaddr` on a little-endian machine.
--
-- Not modelled: logging, `errno` after a call that has not failed, and `perror`; `run_blocking`,
-- which compiles in no program that calls it; what is left of a value that was moved out; in
-- Coro/Program the destructor of a task that was launched, which Coro/Handle and Coro/Jobs have;
-- the HTTP client and request, which declare no behaviour. The copies of asio and spdlog are not
-- part of the program.
pub mod Common
pub mod ErrorCode
pub mod Coro
pub mod Uring
pub mod Ssl
pub mod Http
pub mod Tests
pub mod Objects
pub mod OverUring
pub mod Descriptors
pub mod Net
pub mod IoContext
pub mod Utils
pub mod Fs
pub mod Stream
