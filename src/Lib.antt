-- ===== src/Lib.antt =====
-- libspinscale: asynchronous locks, lock sets, and the detection of deadlocks and gridlocks.
--
-- The library serializes asynchronous call sequences without blocking a thread. A sequence is a
-- continuation; the Qutexes that it requires form its LockSet. A lockvoker (LockerAndInvoker) stands for
-- it in the queue of each required qutex. When a thread's io_service runs the lockvoker, it tries to
-- take all the locks; if one is refused it gives the others back, which moves it back in their queues
-- and awakens whoever is in front now, and it sleeps until some qutex awakens it. A lockvoker that waits
-- too long enters the acquisition history, which is searched for circular waits.
--
-- Parts, and the code that each is about:
--   Base            numbers, lists, options and maps
--   Outcome         what a call comes to: a result, an exception, a spin for ever, undefined behaviour
--   SpinLock        include/spinscale/spinLock.h, with its guard, and the threads that share a lock
--   Qutex           include/spinscale/qutex.h and src/qutex.cpp: registerInQueue, unregisterFromQueue,
--                   tryAcquire, backoff and release, each as a function on the state of one qutex
--   World           the objects that are shared: qutexes, lock sets, awake flags and posts
--   LockSet         include/spinscale/lockSet.h, every method, and under Stepwise the same methods one
--                   call of a qutex at a time
--   DependencyGraph include/spinscale/dependencyGraph.h, src/qutexAcquisitionHistoryTracker.cpp
--   Tracker         include/spinscale/qutexAcquisitionHistoryTracker.h and the .cpp of that name
--   LockerAndInvoker
--                   include/spinscale/serializedAsynchronousContinuation.h: the constructor, first wake
--                   and call operator of a lockvoker, the walk along the chain of callers, and
--                   awakening by other threads
--   AsynchronousContinuation
--                   include/spinscale/asynchronousContinuation.h, asynchronousContinuationChainLink.h
--                   and callback.h: the base class, and the chain of callers as pointers
--   AsynchronousLoop
--                   include/spinscale/asynchronousLoop.h: the counters, modulo 2 ^ 32
--   AsynchronousBridge
--                   include/spinscale/asynchronousBridge.h: waiting while the thread's handlers run
--   IoService       boost::asio::io_service, an interface with its documented behaviour, and a queue
--                   that has it
--   ComponentThread include/spinscale/componentThread.h and src/componentThread.cpp: the requests to a
--                   puppet thread, their handlers, and its two io_services
--   PuppetApplication
--                   include/spinscale/puppetApplication.h and src/puppetApplication.cpp: requests to all
--                   threads, and their distribution over CPUs; under Fleet the application together
--                   with its ComponentThreads
--   Component       include/spinscale/component.h, marionette.h and src/component.cpp: constructors
--   CallableTracer  include/spinscale/callableTracer.h: a callable with where it was posted
-- A method keeps its name in snake case. Children of a module hold its proofs; an Examples module holds
-- its tests and the theorems at concrete inputs.
--
-- Objects are known by their addresses, which are numbers; a store is a function from addresses. A
-- stored list iterator is the number of a node that the list may or may not hold. The callers of a
-- continuation are the list of links up to the null pointer; a callback type is a number. CONFIG_ENABLE_DEBUG_LOCKS is the parameter
-- `debug_locks`; whether the time limit of a lockvoker has passed is the parameter `elapsed`. A qutex
-- awakens a lockvoker after its spin lock is free; in the model its operation returns whom to awaken, and
-- the caller does it at once.
--
-- Fuel: the search of a graph with n nodes runs on fuel n + 1. Each nested call visits a node
-- that no call visited before, so this is enough in a graph whose edges lead to nodes, which is all that
-- addNode and addEdge build.
--
-- Bounds: queue sizes and indices are ints in the code; a queue that overflows one does not fit in
-- memory, and they are unbounded here. The number of required locks is the size of a vector.
--
-- A wait of a bridge and the walk along a chain of callers run on fuel, a round for each unit. A walk
-- from a continuation made before n needs n rounds, since a caller's continuation is made earlier.
--
-- Threads: a method of a lock set is a function on the shared state, and is also cut into phases: a phase
-- is where the method stands between two calls of qutexes, with its local variables, and `next_call` makes
-- the next one. Several lock sets under way are a step relation on the shared state and a phase for each
-- continuation. A lockvoker may be made or destroyed at any time: a backoff or a release keeps a reference
-- to the front of a queue, and an awakening through it is undefined if the object is gone by then.
-- A puppet thread takes turns, each of which runs one handler or returns from one `run()`. A bridge and the posts of lockvokers are step relations, whose steps are
-- what any thread can do at a time. Under LockerAndInvoker, LostWakeUp and Crossing order the steps of two
-- threads around `allowAwakening` one by one.
--
-- The body of a thread is application code; it is assumed to run the main service again, after a reset,
-- only while `keepLooping` is set.
--
-- Not modelled: the interleaving of several threads inside one operation of a qutex, which its spin lock
-- excludes; times and printing, except the cycles that are reported and the messages of a traced
-- callable; the bodies of threads and the handlers that application code posts to them, which are
-- assumed to leave the two services of a thread alone; callbacks that are posted to a caller, beyond
-- the record of their posts and the answers to a request to all threads; MarionetteThread, whose
-- methods application code defines; and the obsolete gridlock search, which cannot be instantiated.
pub mod Base
pub mod Outcome
pub mod SpinLock
pub mod Qutex
pub mod World
pub mod LockSet
pub mod DependencyGraph
pub mod Tracker
pub mod LockerAndInvoker
pub mod AsynchronousLoop
pub mod PuppetApplication
pub mod IoService
pub mod ComponentThread
pub mod AsynchronousBridge
pub mod Component
pub mod CallableTracer
pub mod AsynchronousContinuation
