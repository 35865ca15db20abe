-- ===== src/Lib.antt =====
-- pman, a C++ library of threads, processes and coroutines for Linux, and the promises of its core.
--
-- The parts that hold logic of their own are these. The coroutine layer
-- (include/pman/async) has one event loop; its primitives keep waiters in queues, and resume one by
-- posting its handle to the loop. The rate limiters (src/rate_limiter.cpp) count requests against
-- the steady clock. The timer wheel (src/timer_wheel.cpp) keeps callbacks by the time they are due.
-- The process supervisor (src/process_supervisor.cpp) starts child processes again when they exit,
-- and the health monitor (src/process_health.cpp) judges them by the checks that they pass.
-- Cron expressions (src/cron_scheduler.cpp) are parsed, printed and searched for the next time, and
-- a scheduler runs the tasks that are due. The enhanced thread pool (src/enhanced_thread_pool.cpp)
-- hands tasks by priority to its workers.
-- The rest are threads, processes, sockets and files: calls of the operating system.
--
-- Common holds the names that all modules share: the Boolean tests, lists measured by native
-- numbers, sums and predicates over lists, and signed integers.
--
-- Async.Loop (include/pman/async/event_loop.hpp) is the queue of posted handles. Async.Mutex,
-- Async.Semaphore, Async.RwLock and Async.Channel (mutex.hpp, semaphore.hpp, rwlock.hpp and
-- channel.hpp there) are the primitives: each function of the C++ class that changes state is a
-- function from a state to a state, and runs whole, as it does under the lock of the class. A step
-- is a call or a turn of the loop; the theorems are about any list of steps from a new object.
-- Their child modules hold the invariants and what follows from them. A value that the C++ code
-- moves from is what a parameter, the move constructor of its type, leaves behind.
--
-- Async.Stream (stream.hpp there) is the streams and their combinators: a stream is a state with a
-- function next, and a combinator makes a next of a next. The loops of filter, collect and count
-- are recursions on fuel, and the theorems say how much is enough: one more than there are values.
--
-- Async.Actor (actor.hpp there) is the registry of actors with their names, links and monitors. An
-- exit calls itself for the linked actors; the depth of these calls is the fuel, and one more than
-- there are actors is enough, since each call takes an actor out.
--
-- Async.Combinators (combinators.hpp there) is all and any, for every order in which the tasks
-- complete.
--
-- Limiter.Window and Limiter.Bucket are the two limiters. Every reading of the clock is an argument.
-- acquire and tryAcquireFor go by turns, each with what other threads do before it and whether a signal
-- interrupts the wait that follows; their loops end with the list of turns. FutexCondVar::wait_for
-- throws where its time runs out, and so do these calls then; the exception also unlocks a mutex that the
-- thread does not have, and a thread that has it at that time is taken to keep it. Tokens are whole
-- numbers of 1e-9 tokens where the source has doubles.
--
-- TimerWheel is the wheel with its cascades. The callback of a timer is its id. The loops over the
-- wheels and slots are by recursion on the number of wheels or ticks left, and need no fuel.
-- TimerWheel.Shape shows what the moves of the wheel do to any weight of entries, from which the
-- laws on single timers and on the count follow.
--
-- Supervisor.Process is the state of the processes with the map from pids to names, Supervisor.Calls are
-- the calls of the supervisor, Supervisor.Exits the exits of children and the restarts of its loop.
-- Process names and pids are numbers, launchProcess is the result that it has, and the arithmetic on
-- doubles and the macros of <sys/wait.h> are a parameter, Platform, of which nothing is assumed; the delays
-- that are configured are not negative, and a computed delay may be.
--
-- Health is the monitored process with its counters and thresholds; the outcome of each check is an
-- argument.
--
-- Cron.Text, Cron.Field and Cron.Expression are the expressions: a text is the list of its
-- character codes, and std::from_chars is written out for an int. Cron.Next is nextAfter, with localtime_r
-- and mktime as a parameter, Calendar, of which a theorem names what it uses; the loop of at most
-- 366 * 24 * 60 rounds is a recursion on that number. Cron.Scheduler is the scheduler; its thread
-- collects the ids of the tasks that are due in one step, and runs each of them in a step of its own.
--
-- Pool is the enhanced thread pool. A worker stands at one of five points of its loop; what it does
-- between two of them is one step, and so is each call of the pool. The theorems are about every
-- order of these steps. Pool.Balance follows a task through the queue, the workers and the completed
-- tasks, Pool.Order the order of the queue, Pool.Metered the metrics.
--
-- Scope is TaskScope of include/pman/structured.hpp; join is its two locked parts, between which other
-- calls and the ends of threads may stand.
--
-- Sync are the primitives of threads on atomic words: Sync.Mutex (src/futex.cpp), Sync.RwMutex
-- (src/rw_mutex.cpp), Sync.Once (include/pman/once.hpp and src/once.cpp), Sync.Latch (src/latch.cpp),
-- Sync.Semaphore (src/semaphore.cpp), Sync.RwSpinLock (include/pman/rw_spinlock.hpp) and Sync.SeqLock
-- (include/pman/seqlock.hpp). A thread stands between two atomic instructions, the threads interleave at
-- these, and FUTEX_WAIT is one of them, since the kernel compares the word and puts the thread to
-- sleep at once; a wake-up is a step of its own. Which sleepers the kernel wakes is a parameter, and in
-- Sync.Semaphore a part of the step.
--
-- Periodic is the periodic scheduler (src/periodic_scheduler.cpp), over what it uses of a timer wheel, which
-- the wheel of TimerWheel gives (Periodic.Wheel). A call, a timer that is due and the end of a task on a
-- worker run whole; the mutex, which a thread must not lock twice, is part of the state, and a call that
-- does so has no result. That the timer wheel itself starts and stops is left out: a timer may be due at
-- any time.
--
-- Numbers are natural numbers: counters, ids, and times in nanoseconds are taken to stay within
-- their machine types. Not modelled: memory orders, the interleaving of instructions inside a
-- section that a mutex of the standard library locks, the readiness calls of the kernel (epoll, timerfd, signalfd, eventfd), what
-- happens on the destruction of an object in use, and user callbacks that call back into an object.
mod Common
pub mod Async
pub mod Cron
pub mod Health
pub mod Limiter
pub mod Periodic
pub mod Pool
pub mod Scope
pub mod Supervisor
pub mod Sync
pub mod TimerWheel
