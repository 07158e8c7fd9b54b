-- ===== src/Lib.antt =====
-- A verification library for mux, an HTTP server library in C++ for macOS and Linux.
--
-- The program. `mux/` holds the HTTP classes: a header map, requests and responses over it, status
-- codes, and an application with routers that register routes. `Socket/` holds the server below
-- them: ClientSocket wraps an accepted descriptor and registers it with the poller, SocketBase
-- keeps the table of clients, and a polling handler turns the poller's events into calls of a read
-- and a write handler. The two halves meet only in the handlers, which the application provides.
--
-- Prelude: bytes, decimal numbers, equality tests, lists, and `std::unordered_map` as the list of
-- its entries. Where the source iterates over a map, the order is an argument.
--
-- Http.Status: mux/HTTPStatus.hpp (Code, the class tests, reasonPhrase). Http.Message: a reader of
-- HTTP messages as RFC 9112 lays them out, independent of the source, which the printers are
-- compared with. Http.Header: mux/Header.hpp; Http.Header.Abstract has the headers up to the fields
-- that they have, as a quotient. Http.Helpers: mux/helpers.hpp. Http.Response: mux/Response.hpp.
-- Http.Page: createHttpResponse of mux/HTTP.hpp. Http.Stream: the string streams that
-- Request::parse reads from. Http.Request: mux/Request.hpp; a `string_view` either has its text or
-- dangles, and Request::parse is a chain of steps that may throw. The result of `ada::parse` is an
-- argument, `ada`. The loop over lines runs on fuel, one more than the bytes of the text: every
-- line that is read takes a byte.
--
-- Routing.App: mux/App.hpp and mux/Route.hpp. Routing.Router: mux/Router.hpp; the application
-- behind the router's pointer is kept in a store, so that routers that share it see each other's
-- routes. Handlers and middleware are opaque values.
--
-- Net.System: the system calls, answered by an oracle `os` that may depend on all calls made
-- before; every computation carries the trace of its calls. Net.Client: Socket/ClientSocket.hpp.
-- Net.Poller: SocketBase::closeSocket of Socket/Poller/Server.hpp and the table of clients.
-- Net.Setup: the other members of SocketBase, which open, set up and release the listening socket,
-- and the registration functions of Socket/Poller/Helpers.hpp. Net.Poller.Kqueue and
-- Net.Poller.Epoll: the three `pollingHandler`s of that file; Net.Poller.Kqueue.Reduce and Hashes:
-- its `reduceEvents`, a coroutine that is run to its end with no call between its resumptions, and
-- its hashes. A computation goes on, has called `exit`, or has followed a null pointer. The read
-- and write handlers are arguments. They change the client that they are given and make calls, and
-- do not reach the table of clients, as those of the programs do not.
--
-- Socket/SocketBase/ holds three older server classes behind one abstract class. Net.Setup.Classes:
-- their constructors and destructors, over the members of main.hpp; what the three have in common
-- word for word is modelled once. Net.Poller.KqueueSocket: closeSocket and the handler of
-- Kqueue.hpp. Net.Poller.EpollSocket: the handlers of epoll.hpp and io_uring.hpp.
--
-- HttpServer: class Socket and SocketReader of mux/HTTP.hpp, a second server of its own, and `main`
-- of src/http.cc, which runs it. A call returns, throws, or has undefined behaviour. Listener:
-- mux/Listener.hpp, a third server, with a thread for each connection.
--
-- Programs.Hello: src/kqueue.cc, the handlers of a program over SocketBase, with which the theorems
-- on the polling handler are applied. Programs.Echo: src/Socket.cc, a server without the library.
-- Programs.Routes: the routes of src/http.cc. Programs.Numbers: the functions of
-- tests/factorial.cc. Programs.Matcher: src/dynamic.cc, a matcher of URL templates; a regular
-- expression is the list of its items, and the loop of its groups recurs on the text.
--
-- Workers: Socket/ThreadPool.hpp as sequences of steps of its owner and its threads. Generators:
-- Socket/Generator.hpp; a coroutine body is the sequence of its suspensions. Dates: class Day and
-- `main` of src/day.cc; the calendar, `localtime` and `mktime`, and the C library's texts are
-- arguments.
--
-- A loop that a server runs for ever is a recursion over the batches of events, or over the steps,
-- that it is given, so that a theorem on it is one on every finite part of a run.
--
-- Not modelled: ada/ and taskflow/ (copies of other projects), the branches for Windows,
-- src/header.cc (all of it stands in comments), the test cases and benchmarks, what the servers
-- print on the console, and the bytes that a client receives into its buffer.
pub mod Prelude
pub mod Http
pub mod Routing
pub mod Net
pub mod Workers
pub mod Generators
pub mod Dates
pub mod Programs
pub mod Listener
pub mod HttpServer
