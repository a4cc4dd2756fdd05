-- ===== src/Lib.antt =====
-- A model of the C++ framework atpdxy and the theorems about it. Paths are from the repository's
-- root. The parts of the program and the files here:
--
-- - Common: texts as lists of bytes, tests on the native numbers, lemmas on lists, and the results
--   of code that can fail: a failed ATPDXY_ASSERT, a null pointer, an exception, a context in
--   which no swap has saved anything, and code that is not modelled.
-- - Fiber (atpdxy/fiber.h, atpdxy/fiber.cpp): Fiber with its static functions. All fibers stand in
--   one store behind numbers; a Machine is that store with the pointers of one thread. `running` is
--   the fiber whose code is on the processor. swapcontext saves in `m_ctx` whose code that is, and
--   goes on with what is saved in the other one: the function that makecontext was given, the code
--   of the fiber that ran when it was saved, or, behind the end of MainFunc and CallerMainFunc,
--   the assertion there that is never to be reached. Fiber/Swaps has which code runs behind a swap,
--   Fiber/Control turns, Fiber/Calls calls of a fiber, Fiber/Lifecycle reset, destruction and ids,
--   Fiber/Stacks the memory that fibers take for their stacks.
-- - Scheduler (atpdxy/scheduler.h, atpdxy/scheduler.cpp): the queue of tasks with scheduleNoLock,
--   schedule and stopping, and the inner loop of Scheduler::run (`pick`, `take`). Scheduler/Round
--   is one round of the outer loop of run, on a scheduler and a Machine, and `run` the loop
--   itself. A round swaps fibers in by the operations of Fiber; what the callback does in its
--   turn is given by a Turn, the tasks that it schedules and the way in which it stops.
--   Scheduler/Take and Scheduler/Schedule are about the queue, Scheduler/Round/Grows, Queue,
--   Fibers and Stops about rounds, Drain and Robin about the loop on fibers that come to their
--   end. Scheduler/Threads is `run` on several threads at once, as a step relation over the
--   queue, the two counts and the states of fibers, with Counts and Stopping about it.
--   Scheduler/Lifetime has the constructor, `start`, `stop` and the destructor, as the calling
--   thread goes through them; `stop` calls the root fiber, which is Scheduler/Round's `run`
--   between Fiber's `call` and the end of CallerMainFunc. Its modules Making, Submit, Entry,
--   Alone and Whole lead to the life of a scheduler of one thread; Again is a second `stop`.
-- - Thread (atpdxy/thread.h, atpdxy/thread.cpp, and Semaphore of atpdxy/mutex.cpp): Thread/Handshake
--   is the constructor interleaved with Thread::run, with its module Lifetime about the Thread that
--   `run` uses, Thread/Release `join` and the destructor.
-- - Mutex (atpdxy/mutex.h, atpdxy/mutex.cpp): the guards by the calls that they make, Mutex/Classes
--   the classes that pass these on to pthread, Mutex/CasLock CASLock under any number of threads,
--   and Mutex/Semaphore the class Semaphore, with its exceptions, on semaphores of POSIX that are a
--   parameter. Mutex/Order has threads that take several mutexes, each by a guard inside the scope
--   of others, with readers and writers; its modules are about operations that take them in the
--   order of a rank.
-- - Util (atpdxy/util.h, atpdxy/util.cpp): backtraces, on what backtrace and backtrace_symbols give,
--   with the blocks of memory that are taken and given back. Util/Lines is about lines of a text.
-- - Locking (atpdxy/log.cpp, atpdxy/config.h, atpdxy/config.cpp): the calls on mutexes of each
--   operation, function by function, in Locking/Loggers and Locking/Configs, with the listener of
--   LogIniter; Locking/Framework the threads that start these operations.
-- - Config (atpdxy/config.h, atpdxy/config.cpp): Config/Var is ConfigVar with its listeners,
--   Config/Var/Race setValue called by several threads, with its two scopes as two steps,
--   Config/Var/Throws setValue and fromString with listeners that may throw,
--   Config/Table the table behind Config::Lookup, LookupBase and Visit, Config/Load ListAllMember
--   and LoadFromYaml, which assign to variables by ConfigVar::fromString. Value types, their
--   conversions, and yaml-cpp's nodes are parameters (Types in Config/Var, Yaml in Config/Yaml).
--   Config/Convert is LexicalCast for containers; it loads and writes documents, which Documents in
--   Config/Document stands for, with what yaml-cpp documents of them in DocumentLaws.
-- - Log (atpdxy/log.h, atpdxy/log.cpp): Log/Level and Log/Event; Log/Pattern the loop of
--   LogFormatter::init that cuts a pattern into tuples, and Log/Formatter the items that it makes
--   of them with their output; Log/Store and Log/Logger the loggers and appenders, which share
--   each other by numbers in a store; Log/Manager the constructor of LoggerManager and getLogger;
--   Log/Define the definitions of loggers and the listener that applies a change of them;
--   Log/Document the conversions of definitions and toYamlString; Log/Configured the variable of
--   the definitions, which puts Config/Var, Config/Convert and the listener together; Log/Macro the
--   macros, with LogEventWrap, which make an event of where they stand and give it to Logger::log,
--   and Log/Macro/Assert the macros of atpdxy/macro.h.
--   strftime is a parameter, as are the clock and whether a file takes what is written to it.
-- - Tests: runs on concrete inputs.
--
-- Loops are structural where they can be. Three take fuel: the outer loop of LogFormatter::init,
-- one unit for each byte of the pattern; ListAllMember, one unit more than the height of the
-- document; and Logger::log, one unit for each logger on the way to the root logger. `run` takes
-- the list of the turns that callbacks have; for fibers that yield so many times and then end, one
-- for each turn and two for the idle fiber are enough.
--
-- Machine integers wrap around: the ids and counts of fibers, the counts of threads, the keys of
-- listeners, the size of a stack. Of a thread id, -1 is `none`.
--
-- The operations of Config, Log and Scheduler are one step each. Which mutexes they hold meanwhile is
-- in Locking, apart from what they compute: an operation there finds any state in which the root
-- logger has appenders. Readers of a mutex are let in while a writer waits, as the rwlocks of
-- pthread do by default.
--
-- Not modelled: the mutex of a scheduler in Locking, since it is held while threads are made;
-- so a round of Scheduler::run is one step where Scheduler/Round has a single thread. In Thread
-- the calls of the semaphore succeed, but for Thread/Handshake/Lifetime. The life of a
-- scheduler with several threads as a whole; `stop` called from a task, and with it a root fiber
-- that was suspended inside `run`; the names of the
-- threads of a scheduler; what the conversions print to the console; GetThreadId, which is a
-- system call. The unordered containers are iterated in the order of insertion. Writing to the
-- logs of the framework itself is left out but for the mutexes that it takes, and getcontext,
-- makecontext and swapcontext are taken to succeed, as is malloc. In Scheduler::run the
-- iterator of an erased element is compared with the end of the list; it is read as not the
-- end, as it is for the nodes of a std::list. Listeners of a variable do not throw but in
-- Config/Var/Throws, and do not use the variable that calls them but in Locking.
-- Logger::clearAppenders takes no mutex, and what it does to a list that another thread goes
-- through is not modelled.
pub mod Common
pub mod Log
pub mod Fiber
pub mod Scheduler
pub mod Config
pub mod Mutex
pub mod Thread
pub mod Util
pub mod Locking
pub mod Tests
