-- ===== src/Lib.antt =====
-- A verification library for the C++ backend of this repository: the web engine (backend/src and
-- backend/include/webengine) that authenticates the clients of a reverse proxy, guards its files and
-- endpoints, and controls the proxy itself.
--
-- The parts, and how they interact. A connection (backend/src/Session.cpp) hands each request to
-- `Router::dispatch`, which finds a route, asks for a session of the route's role, and calls the
-- handler. The handlers are those for login, logout, the proxy's sub-request and the gated files
-- (AuthHandler), the management endpoints (WebEngine.cpp), and the application's own. They share
-- the token store, the access list and the provider of users. Apart from that, a controller writes
-- the proxy's listen snippet and starts, stops and reloads nginx or lighttpd. The listener accepts
-- connections on the event loop of the engine until a signal or `stop` ends it, and the example program
-- puts an engine and a controller together, with handlers that drive the controller.
--
-- Role        backend/include/webengine/Role.hpp
-- Auth        backend/include/webengine/AuthProvider.hpp: the interface, as a record of operations
-- Http        backend/include/webengine/Http.hpp: messages and response builders
-- Json        the bodies of requests and responses; the library Glaze is a parameter
-- World       what the handlers observe: the clock, the random bytes, the files
-- Hex         to_hex and from_hex of backend/include/webengine/TestAuthProvider.hpp
-- Decimal     std::to_string and std::stoi, as the same file and the controllers call them
-- Longest     the loop for the longest prefix that Acl.hpp and Router.cpp have in common
-- Tokens      backend/src/TokenStore.hpp
-- Acl         backend/src/Acl.hpp
-- Cookies     backend/src/util.hpp
-- Router      backend/src/Router.hpp and backend/src/Router.cpp
-- TestAuth    backend/include/webengine/TestAuthProvider.hpp
-- AuthHandler backend/src/AuthHandler.cpp
-- Admin       the handlers of WebEngine::enable_admin_endpoints
-- Engine      backend/src/WebEngine.cpp: the state of the engine, its configuration, a request on it
-- Session     backend/src/Session.cpp: a connection, by the completions of its reads and writes
-- Process     backend/src/ProcessUtil.cpp
-- Server      backend/include/webengine/WebServerController.hpp, and what both controllers repeat
-- Nginx       backend/src/NginxController.cpp
-- Lighttpd    backend/src/LighttpdController.cpp
-- Factory     backend/src/WebServerFactory.cpp
-- Control     backend/example/main.cpp: the endpoints that control the server, the ports at the start
-- Serving     the event loop of WebEngine::run, backend/src/Listener.cpp, and all connections at once
-- Overlap     requests as worker threads interleave them: the lookup of the route, the gate, and the
--             handlers by their calls into the objects that they share
-- Main        backend/example/main.cpp: the program, from its environment to its exit code
-- Prelude     the names that all modules share: bytes, texts, lists and dictionaries
-- Tests       concrete runs
--
-- State is passed explicitly: a method that changes an object returns the object after it, and an
-- exception is `none`. Functions keep the names of the source; the helpers of a long function are
-- named in the comments of its file. A text is the list of its bytes, and `std::map` and
-- `std::unordered_map` are association lists with one entry for a key. Operations of the libraries
-- and of the operating system are parameters (`Glaze`, `Crypto`, `Sys`, `SocketCalls`, `World`),
-- and what the theorems need of them is a hypothesis (`IsCrypto`, `IsFileSystem`, `LeavesFile`,
-- `Reliable`, `Sleeps`).
--
-- Bounds. A token is 32 random bytes in hexadecimal and is valid for eight hours, in nanoseconds of
-- the clock. `stoi` fails beyond the range of a 32-bit `int`; a port is a number that its caller has
-- cut to 16 bits. The waits of the controllers are loops of 30 and 50 rounds in the source, and
-- `wait_while` recurs on that number; every other loop is structural. `to_string` recurs on a fuel
-- of one more than its number, and a number has no more digits than that.
--
-- Not modelled: the sockets of Boost.Asio, for which the order of the completions is a parameter, and
-- whether the socket can be bound. In `Serving` a completion is one step, so that a run of it is one of
-- a single worker thread, or of several whose completions do not overlap; in `Overlap`, where the
-- threads interleave, a call into a locked object is one step, since each such method holds its lock
-- whenever it reads or writes the object. A handler of the application is one step there, also those
-- that drive the controller, which has no lock: calls of the controller that overlap are not modelled.
-- The machine changes in the calls of the controller, the pauses included, and not between two probes
-- of the server with no call between them. Memory that runs out; what the program prints;
-- configuration, container and service files and the web pages, which hold no logic of the engine.
pub mod Prelude
pub mod Role
pub mod Auth
pub mod Http
pub mod Json
pub mod World
pub mod Hex
pub mod Decimal
pub mod Longest
pub mod Tokens
pub mod Acl
pub mod Cookies
pub mod Router
pub mod TestAuth
pub mod AuthHandler
pub mod Admin
pub mod Engine
pub mod Process
pub mod Server
pub mod Nginx
pub mod Lighttpd
pub mod Session
pub mod Factory
pub mod Control
pub mod Serving
pub mod Overlap
pub mod Main
pub mod Tests
