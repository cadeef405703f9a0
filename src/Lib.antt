-- ===== src/Lib.antt =====
-- A verification library for the C++ and C code of embLinux. Paths are from the root of the repository.
--
-- modern_cpp_core is a concurrency library. Its containers (data_structures) are used directly by
-- threads, its coroutines draw their frames from a pool (coroutines/coroutine_pool.cpp), and its
-- patterns run over a thread pool. C++_ConcurrencyInAction holds lock-based and lock-free structures
-- after the book of that name. tran-danh-quang holds exercises in C that read commands.
--
-- Which file models what:
--
-- LockFreeQueue    modern_cpp_core/data_structures/lock_free_queue.hpp. `push` and `pop` are the calls
--                  run alone; `produce` and `consume` make one shared access of push and of pop.
-- ThreadSafeQueue  modern_cpp_core/data_structures/thread_safe_queue.hpp. An action is a critical
--                  section under m_mutex or an operation on m_sem, so that a call is one or two of
--                  them (push: `push_locked`, `release_from`; wait_and_pop: `acquire_from`,
--                  `take_front`).
-- ThreadSafeHashMap         modern_cpp_core/data_structures/thread_safe_hash_map.hpp.
-- ThreadsafeLookupTable     the class threadsafe_lookup_table of
--                  C++_ConcurrencyInAction/designLockBase/dataStructures.hpp; its iterators are
--                  offsets into a bucket. Both maps use Table, the refinement of a table of buckets to
--                  a function from keys to values.
-- Rcu              modern_cpp_core/data_structures/rcu.hpp. `register_thread` and `unregister_thread`
--                  are the calls run alone; `read_step` and `write_step` make one shared access of
--                  lock, load, unlock and registration, and of RcuPtr::update with synchronize.
--                  A thread may lock its slot again inside a section (`nesting`, `nested`).
-- HazardPointers   modern_cpp_core/data_structures/hazard_pointer.hpp. `own` is the next access of a
--                  HazardPointerOwner; `sweep` is the loop of delete_nodes_with_no_hazards.
-- LockFreeStack    modern_cpp_core/data_structures/lock_free_stack.hpp, the calls run alone.
-- Spinlock         modern_cpp_core/concurrency/spinlock.hpp: `access` is the next access of lock or
--                  unlock.
-- Channel          modern_cpp_core/coroutines/channel.hpp, send and receive between coroutines of one
--                  thread.
-- CoroutinePool    modern_cpp_core/coroutines/coroutine_pool.cpp.
-- Generator        modern_cpp_core/coroutines/generator.hpp: `begin` and `increment` resume a frame, whose
--                  body is the list of what it will yield.
-- Task             modern_cpp_core/coroutines/task.hpp: `run_frame` runs one coroutine to its next
--                  transfer; a body is a tree of awaited tasks.
-- CountedStack     the class lock_free_stack of C++_ConcurrencyInAction/designLockFree/dataStructures.hpp:
--                  `advance` is the next access of push or pop, and the nodes have split reference counts.
-- EventLoop        modern_cpp_core/coroutines/event_loop.cpp, register_timer, unregister_timer and poll: a call
--                  of epoll or a section under the mutex is a step.
-- QuickSort        C++_ConcurrencyInAction/designConcurrentCode/quickSort.hpp, run by one thread.
-- TerminalInput    clear_stdin and get_user_input of tran-danh-quang/session-09/Exercise_2/writer.c and
--                  Exercise_3/controller.c, over a list of characters and signals.
-- ConfigWriter     the defaults and the loop of commands of Exercise_2/writer.c.
-- DeviceController the loop of commands of Exercise_3/controller.c.
-- DataPipeline     modern_cpp_core/patterns/data_pipeline.hpp.
-- ThreadPool       modern_cpp_core/concurrency/thread_pool.cpp and thread_pool.hpp. `work` is the next
--                  critical section of worker_loop, `execute` a submission; the destructor is a turn that
--                  sets the flag and one for each stop request.
-- FineGrainedQueue          the class threadsafe_queue_fine_grained of
--                  C++_ConcurrencyInAction/designLockBase/dataStructures.hpp, by its sections under
--                  tail_mutex and head_mutex.
-- FixedTask        modern_cpp_core/concurrency/fixed_task.hpp: `call` is a constructor, a move, the destructor or
--                  the call of a task, over a program of objects.
-- ThreadsafeList   the class threadsafe_list of C++_ConcurrencyInAction/designLockBase/dataStructures.hpp,
--                  one lock at a time: `advance` is the next section of push_front, for_each,
--                  find_first_if or remove_if.
-- SingleMutexQueue          the class threadsafe_queue_single_mutex of the same file, by its sections under
--                  the mutex: `notify_one` is the notification of its condition variable, `resume` a
--                  thread that was notified.
-- WorkStealingPool          C++_ConcurrencyInAction/advancedThreadsManagement/workStealingPool.hpp: `advance`
--                  is the next section of worker_thread and run_pending_task.
-- TreiberStack     the class LockFreeStack of C++_ConcurrencyInAction/memory_atomicOperation/treiberStack.cpp:
--                  `advance` is the next access of push or pop.
-- ParallelAlgorithms        parallel_for_each of modern_cpp_core/patterns/parallel_algorithms.hpp: which
--                  elements each task is given.
-- PartialSum       C++_ConcurrencyInAction/designConcurrentCode/practice/parallelPartialSum.hpp: `advance`
--                  is the next access of process_element, with barrier::wait.
-- Prelude          numbers, tests, lists and arrays that these share; Chain, the linked lists through
--                  an array of `next` of the stacks and of the pool of coroutines.
--
-- Conventions. A program of several threads is a list of turns, each of which makes the next shared
-- access of one thread, and a theorem about it holds for every such list. Atomics are sequentially
-- consistent in these runs: the weaker orders that the code asks for are not modelled. Integers
-- of 64 and 32 bits wrap where the code adds to them. An array is a function of the index. Code that is
-- undefined in C++ answers `none`.
--
-- Parameters: the address that `new` gives to a node, any one that is not in use; the hash and the
-- operator== of keys, with the hypothesis (KeyEq) that operator== holds of a key and itself only; the
-- operations of a numeric value type; the address that `new[]` returns; the order in which
-- a pool runs its tasks; what the bodies of coroutines do between their suspensions; `operator<` and
-- `std::partition` of the sort; thread_safe_queue of the work-stealing pool, with the laws
-- SharedQueueLaws; the exception std::bad_alloc of Task; `atoi` of the writer; which descriptors epoll
-- reports, of those that are armed.
--
-- Bounds: a ring has fewer than 2 ^ 64 cells, a stack a capacity from 1 up to the null index, and a run
-- of Rcu fewer than 2 ^ 64 - 1 turns, so that its epoch does not wrap. The external counts of
-- CountedStack, of type int, do not overflow in the model. The buffer of CoroutinePool ends within the
-- address space, which has 2 ^ 64 addresses. The tasks of Task share one pool of blocks, each large enough
-- for any frame, with no other thread; the pool may be empty. The sort of n elements takes 2n + 1 units of fuel, and a loop over a
-- generator one for each suspension. A
-- session of commands takes a round for each character of the input, or line, and one more, and each read of a
-- line one round.
--
-- Not modelled: allocations that throw, but for the frames of Task; the timers of coroutines, the other thread pools of the book, the telemetry, the
-- other book structures and algorithms, such as lock_free_queue of designLockFree/dataStructures.hpp; the
-- demonstration programs, the tests, and the exercises in C of tran-danh-quang but for the loops of
-- commands, which are system calls and output.
pub mod Prelude
pub mod LockFreeQueue
pub mod ThreadSafeQueue
pub mod Table
pub mod ThreadSafeHashMap
pub mod ThreadsafeLookupTable
pub mod Rcu
pub mod Chain
pub mod LockFreeStack
pub mod CoroutinePool
pub mod ConfigWriter
pub mod DataPipeline
pub mod DeviceController
pub mod EventLoop
pub mod ParallelAlgorithms
pub mod PartialSum
pub mod TerminalInput
pub mod SingleMutexQueue
pub mod TreiberStack
pub mod WorkStealingPool
pub mod FixedTask
pub mod ThreadPool
pub mod ThreadsafeList
pub mod FineGrainedQueue
pub mod HazardPointers
pub mod Channel
pub mod Spinlock
pub mod Generator
pub mod Task
pub mod QuickSort
pub mod CountedStack
