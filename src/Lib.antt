-- ===== src/Lib.antt =====
-- zhttpd is an HTTP server. A request owns a chain of modules (input and output, parser, builder,
-- processing, filters); modules talk by events that the request queues as tasks, one buffer at a
-- time, and a task manager runs one task of a request after the other.
--
-- The parts and their files:
-- - api/constants.hpp, server/core/Buffer.hpp and the table of responses at the end of
--   server/core/Request.cpp: Api and Api.HttpCode. A buffer is a name, which stands for its
--   address, and the bytes that are left to read.
-- - the header maps of server/core/Request.cpp: Headers. A map is a list sorted by key.
-- - server/core/RequestTasks.cpp: Tasks (the state, `_register`, `_unregister`, the queue) and
--   Tasks.Work (`hasWork`, `needRead`, `needWrite`, `handleSocketEvent`, `reset`, and any sequence
--   of calls). Each method holds the mutex from its first line to its last, so it is one step. The
--   clock is an argument. `pool_calls` records the calls of the socket pool, `released` the buffers
--   given back. Proofs: Tasks.Registration, Tasks.Buffers.
-- - server/core/ModuleList.cpp and ModuleWrapper.cpp: Chain. A wrapper is named by a number, the
--   order in which it was made; a wrapper that was deleted is no longer found. Proofs:
--   Chain.Processing.
-- - server/core/Request.cpp: Request (what a module can call) and Request.Run (`processTask` and
--   `ModuleTask::run`, which call the chain's module, a parameter). Proofs: Request.Errors,
--   Request.Data.
-- - server/modules/Parser: Parser.Head (the lines of a head) and Parser (the search for its end, the
--   size limit, the body). Proofs: Parser.Lines, Parser.Ends, Parser.Buffers, Parser.Overflow.
-- - server/modules/PreOutputBuilder: PreOutputBuilder (the module) and PreOutputBuilder.Digits (how
--   it writes numbers). Proofs: PreOutputBuilder.Chunks, PreOutputBuilder.Response, Headers.Order.
-- - server/modules/Network, and `setSize` of server/core/Buffer.hpp: Network. What the socket reads
--   and takes is an argument, and so is the memory that a buffer holds before it is written.
-- - server/utils/Path.cpp and PathUnix.hpp: Paths. What the file system says is an argument.
-- - server/socket/SocketEvent.hpp: SocketEvents. What the handlers do is a parameter.
-- - server/modules/common/PostData.hpp: PostData. The loop over a buffer takes a bound on its turns,
--   since it need not end. Proofs: PostData.Decoding, and PostData.Forms with enough turns for forms.
-- - server/core/TaskManager.cpp, the queue of server/thread/ThreadPool.cpp and `endRequest` of
--   server/core/RequestManager.hpp: TaskManager, and TaskManager.Steps, in which the threads take
--   steps in any order. A visit of `_giveWork` to one request is one step, since no other thread
--   takes tasks from a request that is not queued. Proofs: TaskManager.Visits, TaskManager.Counts,
--   TaskManager.Invariant, TaskManager.Reachable.
-- - server/modules/FileReader: FileReader, with the file as an argument, and FileReader.Transfer, the
--   turns of its reading. Proofs: FileReader.Transfer, FileReader.Ranges.
-- - server/utils/BufferAllocator.cpp: Memory, over a heap of arrays whose bytes are not determined
--   before they are written; Memory.Reachable has the states that its users and the rest of the
--   program lead to. server/core/Buffer.hpp over it: Memory.Buffers. Sums of sizes are taken not to
--   wrap, since an array of that size stands. Proofs: Memory.Reuse, Memory.Operations,
--   Memory.Cleaning, Memory.Refinement.
-- - server/configuration/VHost.cpp and the guidelines beside it: VHost. Regular expressions are an
--   argument, and so are the query and the port of the request. server/configuration/
--   ModuleConfiguration.cpp and the modules of a virtual host: VHost.Options. Proofs: VHost.Choice,
--   VHost.Options.
-- - server/modules/Builder: Builder. The file system, the configuration and the modules' answers to
--   isRequired are arguments. Proofs: Builder.Order, Builder.Files.
-- - server/socket/SocketPool.hpp: SocketPool, over any selector (Selector, the interface), which
--   Selector.Basic (BasicSocketSelector.cpp) and Selector.Epoll (EpollSelector.cpp) fill. What the
--   system watches and tells is a set and an argument; that epoll_ctl may fail to add a descriptor that
--   is not watched is not modelled. Proofs: SocketPool.Watch, SocketPool.Reused,
--   Selector.Prepare.
-- - `handleNewRequest` of server/core/RequestManager.hpp: RequestManager. Proofs: RequestManager.Built,
--   with the builder.
-- - modules/cgi/CGI.cpp: Cgi. Whether the program starts, what is read from it and whether it has
--   ended are arguments. Its environment, with modules/cgi/Environment.cpp: Cgi.Environment. Proofs:
--   Cgi.Lines, Cgi.Output, Cgi.Sending, Cgi.Variables.
-- - server/utils/MemoryPool.hpp: MemoryPool, whose objects are numbers. Proofs: MemoryPool.Sweep,
--   MemoryPool.Reachable. The managers of modules over it, server/modules/common/AbstractManager.hpp as
--   built with ZHTTPD_DEBUG: ModuleManager. Proofs: ModuleManager.Instances.
-- - modules/gzip/Gzip.cpp: Gzip. zlib is an argument, a compressor with deflateInit2 and deflate, of which
--   Gzip.IsFlushing states what is documented. The loop of the compression has fuel; one turn more than
--   zlib's bound on the calls that write is enough. Proofs: Gzip.Deflate.
-- - server/modules/ModError: ModError. The text of a number is an argument. Proofs: ModError.Page.
-- - server/utils/SmartPtr.hpp: SmartPtr, with commands for what a program does with pointers.
--   What the destructor of an object does to other smart pointers is an argument. Proofs:
--   SmartPtr.Counted.
-- - server/modules/common/AbstractModule.hpp and AbstractProcessingModule.hpp: ProcessingModule, over
--   PostData, with what a module does at the end as an argument. Proofs: ProcessingModule.Collected.
-- - server/configuration/Configuration.cpp, with getModuleManager of ModuleConfiguration.cpp:
--   Configuration. Which names the factory of modules knows is an argument. Proofs: Configuration.Ports.
--
-- Tests holds the theorems at concrete inputs.
--
-- Tasks reports to Request by `has_work` and `get_next_task`; Request adds tasks for the next module
-- of the Chain; Parser is a module and calls Request as the interface of a module allows.
--
-- Reads through a null pointer and the front of an empty list are `none`. Sizes are taken modulo
-- 2 ^ 64, times modulo 2 ^ 32. Every loop runs over a list or a buffer and needs no bound, but for
-- the digits of a number, which are at most 32, the turns of the file reader, which are at most as
-- many as the file has bytes, and the loop of PostData.
--
-- Not modelled: threads, sockets, the system's files, the XML configuration, dynamic loading, the
-- vendored libraries, and the modules that are not named above. The name of the server, which the
-- build makes, is a parameter.
mod Base
pub mod Api
pub mod Headers
pub mod Memory
pub mod MemoryPool
pub mod ModuleManager
pub mod VHost
pub mod Builder
pub mod Tasks
pub mod Chain
pub mod Request
pub mod TaskManager
pub mod Parser
pub mod PreOutputBuilder
pub mod Network
pub mod Paths
pub mod FileReader
pub mod PostData
pub mod ProcessingModule
pub mod SocketEvents
pub mod Selector
pub mod SocketPool
pub mod Cgi
pub mod Gzip
pub mod ModError
pub mod SmartPtr
pub mod Configuration
pub mod RequestManager
mod Tests
