-- ===== src/Lib.antt =====
-- A model of myteams, a messaging server with teams, channels and threads, and of what its client
-- sends.
--
-- The server (server/) is one process with one event loop. It keeps a table of connections and a
-- database in memory. A round of `Server::run` updates the poll flags, waits for events and
-- handles each: a connection is accepted, bytes are read and split into lines, a line is split
-- into arguments and run as a command, pending output is written, or a connection is closed. A
-- command reads and writes the database and the connection that gave it, and appends answers and
-- events to the write buffers of connections.
--
-- Which file models what:
--   Models         server/models: User, Team, Channel, Thread, Reply and Message as records
--   Database       server/database/Database.cpp: findUser .. findThread, and writes through them
--   Protocol       server/utils/utils.cpp, with Protocol/Arguments (parseArgs of
--                  server/commands/commandHandling/commandHandling.cpp) and Protocol/TokenParser
--                  (client/protocol/TokenParser.cpp)
--   State          server/client/client.hpp, server/Context.hpp and the state of server/server.hpp
--                  with sendToClient, broadcast, sendToUser and notifySubscribers
--   Commands       server/commands: Login (login, logout), Create (create), Info (info), Listing
--                  (list), Context (use), Subscriptions (subscribe, unsubscribe, subscribed),
--                  Messages (send, messages), Users (user, users), Handling (handleCommand)
--   Poller         server/net/Poller.cpp
--   Loop           server/server.cpp: _acceptClient, _parseCommands, _handleRead, _handleWrite,
--                  _disconnectClient, _updatePollFlags, _processClientEvent, _processEvent and a
--                  round of run
--   Persistence    server/saveManager: Json and Parser (JsonParser.cpp), Printer and Decoder
--                  (JsonSerializer.cpp), Saving (saveManager.cpp and the load of server.cpp), Maps
--                  (std::map), Numbers (what is used of double)
--   Client         Schemas (client/protocol/CommandSchemas.hpp), CommandLine
--                  (client/protocol/CommandLineDispatcher.cpp and dispatchCommandLine of
--                  client/ClientApplication.cpp), Calls (client/User.cpp and the state of
--                  client/protocol/ServerMessageRouter.hpp), Integers (std::stoll, std::stoi),
--                  Events (the handlers of events of client/protocol/handlers), Status
--                  (ResponseStatusHandler.cpp), Router (ServerMessageRouter.cpp), Network
--                  and Connecting (client/network/TcpClient.cpp), System (client/sys/Posix.cpp),
--                  Frames and Application (the frames and the event loop of
--                  client/ClientApplication.cpp)
--   Programs       server/main.cpp, client/main.cpp and parsePort of client/ClientApplication.cpp
-- The other files hold proofs: Protocol/Quoting, RoundTrip, Lines, Numbers, Agreement, Unclosed
-- and Events about the tokenisers, Answering about handlers that only answer, Frame about the
-- writes that commands are made of, Accounting about the connection counts, Teams about names and
-- subscribers, Session about what a connection sees, Messaging about private messages and
-- subscriptions, Client/Quotes, Validation and Sending about typed lines, Client/Stream, Growing,
-- Wire about the bytes that the client sends, Client/Connected about its sockets, Client/Running
-- about its run, Client/Framing, Decimals, Delivered, Listed, Items, Shown, Notified about what
-- it makes of what it gets, Persistence/Documents, Strings, Reading, Printed, Decoded, RoundTrip,
-- Restart, Session and Stray about saving and loading, Frame/Lasting and the files named Reached
-- about the whole event loop, Programs/Ports about port numbers. Tests runs the theorems on small
-- servers, clients and files.
--
-- How state is modelled. A handler takes the server and returns the server that it leaves. A
-- client passed by reference is the entry of the client table at its descriptor; a pointer into
-- the database is the element that the look-up finds, and a write through it changes the first
-- element that the look-up would find. Text is the list of its bytes. `time_t` and the connection
-- count are natural numbers: the count is an `int` in the code, and is bounded by the number of
-- clients. What the system answers is an argument: the results of accept, read, write and poll,
-- the uuids of the generator and the time. The generator is assumed to return uuids that are not
-- empty, that no user has, and that do not come twice. Each of accept, read, write and close may
-- throw: that ends the program, and there is no next state. `parseArgs` has no defined result on
-- a word that is one quote and nothing else, and there the model has none.
--
-- A file is its text. Floating-point numbers, by which the JSON parser reads a time, are an
-- interface (Persistence/Numbers): `std::from_chars` reads the digits of a natural number to the
-- first byte behind them as the nearest double, or leaves the value as it was if the number is
-- out of the range of `double`; it reads nothing where no number starts; and a natural number up
-- to 2 ^ 53 is in range and comes back from its double by the cast to `time_t`.
--
-- Nearly every loop is structural recursion on the list or text that the code runs through, or on
-- the list of what the system answers. `to_string` takes one round more than the number itself,
-- and so at least as many as it has digits. The JSON parser takes fuel, since it does not end on
-- every text; on what `save` writes, fuel above twice the length of the text is enough.
--
-- A wrapper of the client that tries a system call again takes the list of the answers to its
-- attempts, and has no result where that list ends before the call does.
--
-- Not modelled: the wrappers of system calls of the server (server/sys), the poller of the
-- client, which is that of the server, the sockets that init of the server opens, its signal
-- handler, the text of errors, and the logging library, whose calls are recorded in order. The
-- order in which a loop runs through the table of connections is not specified; such loops treat
-- each connection alike.
pub mod Prelude
pub mod Models
pub mod Database
pub mod Protocol
pub mod State
pub mod Commands
pub mod Persistence
pub mod Poller
pub mod Loop
pub mod Programs
pub mod Answering
pub mod Frame
pub mod Accounting
pub mod Session
pub mod Teams
pub mod Messaging
pub mod Client
mod Tests
