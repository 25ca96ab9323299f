-- ===== src/Lib.antt =====
-- A model of the tweet server (src/main_server.cpp) and of its client (src/Client.cpp,
-- src/SocketClient.cpp, src/main_client.cpp), and what is proved of them.
--
-- Clients connect over TCP. For each connection the server runs three threads: the connector
-- (`handle_client_connector`) reads packets, signs the client in, queues its requests and writes what
-- waits to be sent; the speaker (`handle_client_speaker`) carries out the queued FOLLOW and UPDATE
-- requests; the listener (`handle_client_listener`) fetches the tweets that are pending for the client
-- and queues them for the connector. All of them share two objects: `cm_temp` of class
-- `connectionManager`, which counts the sessions of each user (at most two) and keeps tweets for the
-- second one, and `db_temp` of class `databaseManager`, the tables of users, followers, received
-- tweets and pending tweets. A timer saves the tables to four files, from which a start loads them.
--
-- Files, and the code each is about (src/main_server.cpp where no other is named):
--   Base, Base/*          Booleans, lists, tallies, and programs that may wait for a semaphore or meet undefined
--                         behaviour (`Outcome`: ok, blocked, fault)
--   Semaphore, its Threads and Exclusion   `customBinarySemaphore`, alone and used by many threads
--   Data                  `userType`, `tweetData`, `pendingTweet`, `connectionTrackerType`
--   Connections           `connectionManager`; Count, Limit and Refusal on the numbers of sessions,
--                         Duplicates on the tweets that are kept for a second session
--   Database/State        the members of `databaseManager`, and the ways in and out of the sections
--                         that its semaphores guard
--   Database/Users, Follow, Update, Retrieve   its queries: `addUser`, `getUserIndex`, `getUserName`;
--                         `postFollow`; `postUpdate`; `retrieveTweetsFromFollowed`, with their helpers
--   Database/Tables       when the tables are valid, and what each query changes, without semaphores
--   Database/Counting, Followers, Settling, Valid   that these changes keep the tables valid
--   Database/FollowRun, UpdateRun, Delivery, Sharing, RetrieveRun, Keeps, Posting, Adding   that the
--                         queries make these changes, and what they return
--   Database/Service      what the queries promise: a service of followers and inboxes, with no tables,
--                         tweet numbers, counts or locks; Posts, Contents, Fetches and Runs on queries
--                         against it
--   Database/Gate         the semaphores that queries and `saveDatabase` pass, with any number of threads
--                         that interleave; Tallies, Invariant, Safety and Progress on it
--   Database/Sections     the readers and writers of the list of pending tweets, with any number of
--                         threads that interleave; Holders, Invariant, Safety and Progress on it
--   Stream                `std::ostream` and `std::istream` as far as the files use them
--   Files                 the stream operators, `save...` and `load...` of `databaseManager`; Rounds and
--                         Ending on the loop of `loadListOfUsers`
--   Message               inc/Message.hpp and src/Message.cpp
--   Session               the three threads of a connection: State (what they share), Connector,
--                         Speaker and Listener; SignIn, Unsigned and Flush on the connector, Replies
--                         and Requests on the speaker, Deliver on the listener, Interleaving on
--                         what their steps compose to
--   Session/Life          the loops of the three threads from their start to their end, in any order of
--                         their turns; Joins on the end, Rounds, Turns, Requests and Serving on the
--                         requests, Delivery and Arrival on the tweets, Ends, Closing and Shutdown on a
--                         connection that is ordered to end, by its client or by the server, Visits on
--                         whole connections
--   Client                sign-in and the wait for the answer (src/Client.cpp); Client/Servers the list of
--                         servers (src/main_client.cpp), Client/Handshake the two sides of a sign-in
--   Client/Sockets, Shell, Sender, Controller   the socket wrappers (src/SocketClient.cpp), the search for
--                         a server, the commands, and the rounds of the controller (src/Client.cpp);
--                         Retries, Sends, Lost, Quiet, Printed and Rounds on what these do; Start the
--                         arguments, the first search, and the search against Client/Servers
--   Client/Endpoint       the global members of the socket and the whole of `Client::sign_in` on them
--                         (inc/Socket.hpp, src/SocketClient.cpp); Client/Leaks a later search on it
--   Client/FrontEnd, Reconnect   how the two threads of the client take turns (src/main_client.cpp),
--                         and what becomes of a client that signs in again
--   Process, Process/Restart   the loop of `main`, and a save by one process with the load by the next
--   Process/Accepting     the loop of `handle_connection_controller`
--   Echo                  the demonstration server (src/Server.cpp)
--   Journey               the way of a tweet from the client's line to a follower's socket
--   */Tests, Client/SendTests, Client/LinkTests   concrete inputs
--
-- A method is a program on the object's state, with one step for each `P` and `V`; an index out of
-- range, a read past a buffer and an iterator past the end are `fault`. Users are known by their
-- index, an `int` by its 32-bit pattern; `uint8_t`, `uint32_t` and the 64-bit counters wrap where the
-- code lets them. Bytes are numbers, and a `char` array is the list of its bytes. The pending and
-- received lists are lists of lists, as the vectors of vectors are.
--
-- Bounds and fuel. `loadListOfUsers` reads up to the end of its file and has no bound of its own; its
-- model has fuel, and for a file that `saveListOfUsers` wrote, two rounds more than there are users
-- are enough; for any file, two rounds more than there are bytes are enough if the loop ends at all.
-- The loops of the client run on what is still to come: the lines typed, the errors of the socket, and
-- the packets; where nothing comes they wait. Every other loop is structural. Tweet numbers are an
-- `int` that may not overflow, so a post supposes that fewer than 2^31 - 1 have been given out.
--
-- What comes from outside is a parameter: the time, whether the client can be written to, the shutdown
-- notice, what `recv` reports, and what uninitialised memory holds (`Env`, `Recv`, `Junk`, `blank`).
-- The streams skip blanks before a number or a character, read decimal digits behind a sign or none, fail
-- on a missing one and at the end, saturate a number that is too large, and wrap a negative one around,
-- as the standard says. A `resize` beyond the greatest size of a string ends a load by an exception; that
-- size is the one of libstdc++ on 64 bits.
--
-- At the gate and at the list of pending tweets a step is one `P`, one `V`, one lock or unlock of a
-- mutex, or one change of a count; what a query does inside is not looked at there. A thread that
-- returns early from `postFollow` is `leaked`.
--
-- In Session/Life a turn of the connector is a round of its loop, one of the speaker a test of one of its
-- loops with the pass that follows, and one of the listener a check, or what follows the check; turns of
-- different threads do not overlap. The theorems on whole connections let the listener look for tweets
-- at the end only; before a sign-in its check is undefined behaviour.
--
-- Not modelled: the set-up of sockets, and the times that loops wait in `poll` and `sleep_for`; partial
-- reads and writes, which the code reports and drops; running out of memory; the order in which the
-- controller joins the threads of its connections; `get_timestamp_string`, which is for output.
-- Mutexes that are locked and unlocked in one scope leave no trace in a thread that runs alone. A query
-- of `databaseManager` runs without interruption in the modules on queries, from a state in which no
-- thread is inside a section;
-- interleavings are modelled for the semaphore, for the gate, for the section of the pending tweets,
-- for the threads of one connection and for those of the client. The waits of the listener and of a
-- fetch end by their time. Those between the client's threads may, after 1000 seconds. The lists of
-- followers in inc/Client.hpp and the record of src/data_structures.hpp are used by nothing.
pub mod Base
pub mod Journey
pub mod Process
pub mod Semaphore
pub mod Data
pub mod Echo
pub mod Connections
pub mod Database
pub mod Stream
pub mod Files
pub mod Message
pub mod Session
pub mod Client
