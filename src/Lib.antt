-- ===== src/Lib.antt =====
-- A remote file system in C: a client that writes, gets and removes files on a server, and a server
-- that keeps old versions and locks each file while it works on it.
--
-- Its parts, and the modules that model them:
--   * config.h: Config, the constants.
--   * protocol.c, protocol.h: Protocol. Protocol/Request and Protocol/Response have the two structs,
--     their constructors, `serializeRequest`, `deSerializeRequest`, `serializeResponse` and
--     `deSerializeResponse`; Protocol/Transmit has `sendResponse` and `buildAndSendResponse`.
--   * command.c, command.h: Command, with `strToCommandType`, `formatPath`, `createCommandStruct`.
--     Structs has `createRequest`, `createResponse` and `createCommandStruct` once more, with every block
--     of memory, and `freeRequest`, `freeResponse` and `freeCommandStruct`.
--   * utils.c: `equals` is in CString; Utils/Paths has `extractDirectory`, `extractBasename` and
--     `createNestedDirectories`; Utils/Transfer has `getFileSize`, `copyFile`, `sendALL`,
--     `sendFileContents`, `receiveFileContents` and `receiveALL`.
--   * server/request_handler.c: RequestHandler, with `makeVersionName`, `saveCurrentVersion` and the
--     handlers of WRITE, GET and RM.
--   * server/thread_manager.c: LockList has the linked list of file locks on an explicit heap,
--     and LockList/Table the same list as a table that forgets the order of the nodes;
--     ThreadManager has `receiveRequest` and `threadClientHandler` of one thread, and
--     ThreadManager/Threads the steps of any number of threads over the shared list and its locks.
--   * server/server.c: Server, with `main`, and with `createAndDetachThread` of thread_manager.c.
--   * client/arg_parser.c: ArgParser. client/client.c: Client, with `sendRequest`,
--     `handleGetResponse`, `displayServerResponse` and `main`. EndToEnd has a client and a thread of the
--     server on the two ends of a connection.
--
-- The client turns its command line into a command, the command into a request, and sends its text,
-- for a WRITE with the contents right behind it. The server's thread reads the request, looks up the
-- lock of the file, and calls the handler, which answers with a response, for a GET with the contents
-- right behind it.
--
-- The C library and the operating system: CString has the functions on strings, FileSystem the files,
-- Socket the two ends of a connection, World the state that a handler works on. A string is the list of
-- its bytes. A write behind the end of a buffer, a read of an unassigned variable and a use of NULL are
-- the outcome `undefined` of Prelude/Control. A path is a key as it is spelled: what is said of two files
-- is said of two spellings, and where there are no links, two plain spellings are two files. What the
-- operating system refuses, whether the disk is full, how many bytes each `send` takes, and which blocks arrive
-- are parts of the state and arbitrary. Whether `malloc` has memory is one flag, that holds for every call of an
-- operation, `strdup` included. `ceil(log10(n))` is computed exactly; libm's result in a `double` agrees with it
-- for the lengths below 10 ^ 14 and for powers of ten, and may be less above. The `int` that counts a text is
-- exact for texts shorter than 2 ^ 31 bytes.
--
-- Threads: a thread's handler is cut into steps at its calls on what it shares with the others: the
-- lookup of the lock, which the list's mutex makes one step, and the calls that take and give back the
-- lock of the file. Any thread may make the next step, and a new thread may start at any time. What
-- arrives at a thread is arbitrary. RequestHandler/Calls names the calls that a handler makes on the
-- files between two steps, and ThreadManager/Threads/Files has them interleaved with those of the other
-- threads. A lock is given back only in a step behind a run of the handler that returned. The state of `strtok`,
-- which all threads share, is not among what they share here, and the list of locks was made: without memory for
-- it every request is refused a lock.
--
-- Fuel: the loops of `copyFile`, `sendFileContents` and `receiveFileContents` run on fuel, and `running`
-- says that it is used up. A fuel above the number of bytes is enough, as the entries below say; where a
-- loop does not end, it is shown for every fuel. `sendALL` and the loops over lists need none from
-- outside.
--
-- Not modelled: what is printed (but for what `displayServerResponse` reports) and, outside of Structs and of the
-- list of locks, `free`. The answers of `socket`, `bind`, `listen`, `accept`, `connect` and
-- `pthread_create` are values given to the model. The tests print comparisons and are left out.
pub mod Prelude
pub mod Config
pub mod CString
pub mod FileSystem
pub mod Socket
pub mod World
pub mod Utils
pub mod Command
pub mod Protocol
pub mod RequestHandler
pub mod LockList
pub mod ThreadManager
pub mod Server
pub mod ArgParser
pub mod Client
pub mod EndToEnd
pub mod Structs
pub mod Examples
