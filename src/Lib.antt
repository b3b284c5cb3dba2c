-- ===== src/Lib.antt =====
-- pine: an HTTP/1.1 library in C++20 with coroutines, a thread pool and the Windows socket library.
--
-- A server accepts sockets and makes a connection of each; a connection receives and sends raw
-- messages, which are parsed to requests and printed from responses; the client does the reverse.
-- Every call that may wait is a coroutine that returns an async_operation, resumed by a thread pool.
-- Connections have snowflakes as identifiers; errors are values of std::error_code.
--
-- What models what (paths from the repository's root):
--   Errors               shared/include/error.h
--   Http, Http/Utils     shared/include/http.h, shared/src/http.cpp: the tables of names and the
--                        functions try_get_*, under their names
--   Http/Scan            the way these functions end: a value or an error at an offset, an exception
--   Http/Print           the lines of headers, as both to_string write them
--   HttpRequest          shared/include/http_request.h, shared/src/http_request.cpp
--   HttpResponse         shared/include/http_response.h, shared/src/http_response.cpp
--   Snowflake            shared/include/snowflake.h, shared/src/snowflake.cpp
--   Coroutine            shared/include/coroutine.h: promise, future and the awaiting protocol;
--   Coroutine/Frames     the handles, and what they do to the frame of the coroutine
--   Coroutine/Pooled     operations whose tasks, those of the constructor and those of await_suspend,
--                        the threads of the pool run: the relation Act
--   Coroutine/Awaiting   coroutines that await one another, with their promises: the relation Event
--   ThreadPool           shared/include/thread_pool.h, shared/src/thread_pool.cpp; the interleavings
--                        of the threads are the relation Step of ThreadPool/Steps
--   Connection           shared/include/connection.h, shared/src/connection.cpp
--   Wsa                  shared/include/wsa.h, shared/src/wsa.cpp
--   Server, Server/Start server/include/server.h, server/src/server.cpp
--   Server/Sections      the threads of the same two files that run accept_clients,
--                        disconnect_client and stop, with mutate_clients_mutex, each access to what
--                        they share as a step: the relation Access
--   Server/Contract      the sections of the same two files that touch the map of clients: the
--                        relation Trace, and what its caller is promised
--   ServerConnection     server/include/server_connection.h, server/src/server_connection.cpp
--   ClientConnection     client/include/client_connection.h, client/src/client_connection.cpp
--   Client               client/include/client.h, client/src/client.cpp
--   Examples             examples/server_example.cpp, examples/client_example.cpp
-- Prelude, Bits, Text, OrderedMap and IdMap hold what these share: numbers, the operations of
-- std::string_view, and those of std::map and std::unordered_map. The other modules below a
-- component hold its lemmas and theorems. What the code is compared with is declared in
-- Http/Grammar, HttpRequest/Grammar and HttpResponse/Grammar (the texts that the parsers accept),
-- HttpRequest/Refused and HttpResponse/Refused (the texts that they refuse),
-- HttpRequest/Built and HttpResponse/Built (the messages that the setters make),
-- OrderedMap/Entered (the last value of a name among header lines), Http/Accepted (a text in which
-- no line ends right behind a colon), Connection/Pieces and Connection/Segments (a message in
-- pieces), Connection/Sequence (messages one behind the other), Connection/Sending (what send
-- does), IdMap/Listing (the lists that hold one map), Server/Contract (what is promised of the clients),
-- ThreadPool/Queue (a first-in first-out queue) and ThreadPool/Drain (runs of the workers alone).
-- Exchange is about the operations of both ends. Tests runs the model, also on the inputs of
-- tests/unit.
--
-- A class is a record of its fields, a member function a function of that record under the same
-- name. A text is a list of bytes. An offset that a parser takes by reference is passed on by the
-- outcome. Differences of size_t wrap around at 2 ^ 64, bit fields are cut to their bits. An
-- exception of the standard library is an outcome of its own, so is a call that waits for ever.
--
-- Fuel: headers_loop has one unit more than the text has bytes, and each round but the last passes a
-- line end of two bytes. to_decimal has 20 digits, which every 64-bit number fits.
-- ClientConnection.connect has a depth of calls, since it calls itself before all else; it is
-- treated for every depth. The loops over what sockets and clients give are recursions over the list
-- of what they give; behind its end the loop waits.
--
-- Arguments of the model, because they are not of the program: the returns of the socket library
-- with its last error, the clock, the callbacks of the server, and for co_await the outcome that a
-- suspended coroutine finds when it is resumed. A coroutine's body runs eagerly, as initial_suspend
-- has it. The numbers of std::errc are those of the Windows runtime.
--
-- Not modelled: shared/include/expected.h, another project's std::expected; output to the console;
-- accesses to one object at the same time (data races), since each step of Server/Sections is one
-- access; what a pool's task does, but for the tasks of operations; the operations
-- that the server's callbacks return; tests and build files.
pub mod Prelude
pub mod Text
pub mod Bits
pub mod OrderedMap
pub mod Errors
pub mod Http
pub mod Snowflake
pub mod Coroutine
pub mod ThreadPool
pub mod Connection
pub mod HttpRequest
pub mod HttpResponse
pub mod ServerConnection
pub mod IdMap
pub mod Wsa
pub mod Server
pub mod Client
pub mod Examples
pub mod Exchange
pub mod ClientConnection
pub mod Tests
