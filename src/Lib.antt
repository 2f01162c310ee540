-- ===== src/Lib.antt =====
-- A model of the simple backend of DARMA, a task runtime, and of what it promises.
--
-- The front end describes the uses that a task makes of its data. The backend gives each use four
-- flows (an in flow, an out flow, an anti-in flow and an anti-out flow), each with a join counter that
-- fires when the flow is ready; a task is queued when the flows it depends on have fired, and workers
-- take tasks from their queues or steal them. All of these parts meet in the join counters: whoever is
-- to decrement a counter holds one of its counts. The central invariant, `Inv` of Machine/Balance, says
-- that the count of each counter is the number of decrements that are queued as actions of other
-- counters and of those that the code outside the machine still owes (the holds).
--
-- The parts, their files and the code they stand for (paths from the repository's root):
--   Prelude            shared helpers: tests, lists, tables indexed by address
--   Machine/Types      the state: src/data_structures/join_counter.hpp, src/flow/flow.hpp,
--                      src/flow/control_block.hpp, src/publish.hpp, src/task_collection_token.hpp,
--                      src/ready_operation.hpp, and the fields of src/runtime/runtime.hpp
--   Machine/Monad      code on that state, with a failed assertion and a null dereference as results
--   Machine/Counter    JoinCounter and Event (src/data_structures/event.hpp)
--   Event              the same code as several threads run it, with the pointer under a lock of
--                      src/data_structures/pointers.hpp; Event/Invariant and Event/Delivery are about
--                      its executions
--   Machine/Balance, Frame, Decrement, Attach, Consume, Stock, Stocked
--                      the invariant of the counters, and that their operations keep it
--   Flow, Flow/Laws, Flow/Verbs
--                      flows, control blocks and their data; what each call does to the holds;
--                      Flow/Ownership is about who destroys the data
--   Register           Runtime::register_use (src/register_use.cpp); Register/Published is the table of
--                      published entries (src/data_structures/concurrent_map.hpp), Register/Others the
--                      anti-in, out and anti-out flows, Register/Whole the function as a whole;
--                      Register/Balance, AntiIn, Out and AntiOut the theorems for each flow
--   Release            Runtime::release_use (src/release_use.cpp) and the aliasing strategy that the
--                      configuration selects (src/flow/aliasing_strategy.cpp); Release/Paid,
--                      Release/RoundTrip, Release/Stocked and Release/Aliased its theorems
--   Pending            src/pending_operation.hpp, src/ready_operation.hpp, src/ready_operation.cpp and
--                      Worker::run_operation (src/worker/worker.hpp); Pending/Queued and
--                      Pending/Tasks their theorems
--   Waiting            PendingOperation of src/pending_operation.hpp as several threads run it, with the
--                      events it waits for; Waiting/Invariant, Attaching, Readying and Kept keep its
--                      invariant, and Waiting/Queued and Ends have its theorems
--   Runtime            src/runtime/runtime.cpp; Runtime/Shutdown and Runtime/Tasks its theorems;
--                      Runtime/Region and Runtime/Quiescence are src/runtime_instance.hpp
--   Worker             src/worker/worker_threads.cpp and src/worker/work_stealing_random.cpp;
--                      Worker/Stealing and Worker/Stopping its theorems
--   Pool               the threads of all workers: the same two files, spin_up_worker_threads, the joins,
--                      register_task, register_task_collection and the shutdown counter
--                      (src/runtime/runtime.cpp), with the tests of src/ready_operation.hpp;
--                      Pool/Weights, Invariant, Plain, Queues, Spawning, Counting, Moves and Kept keep
--                      its invariant, Pool/Cost, Measure and Progress are about the work that is left,
--                      and Pool/Outcome and Ends have its theorems
--   Collective         allreduce_use of src/collectives.cpp, with the contents of the data;
--                      Collective/Invariant, Steps, Lambdas and Stages keep its account, and
--                      Collective/Allreduce and Alone have its theorems
--   Collective/Collection, Gathered, Reduction
--                      reduce_collection_use of src/collectives.cpp and its theorem
--   Publication        publish_use of src/publish.cpp, and the fetching cases of src/register_use.cpp,
--                      with the contents of the data; Publication/Stages, Copy, Publishes and Fetches
--                      keep its account, and Publication/Fetched has its theorems
--   Queue, Queue/Fifo  src/data_structures/queue.hpp
--   ConcurrentMap      src/data_structures/concurrent_map.hpp
--   ConcurrentDeque    ConcurrentDeque of src/data_structures/concurrent_list.hpp
--   TryLock            try_lock of src/util.hpp
--   Arguments          src/parse_arguments.cpp; Arguments/Bounds is initialize_runtime_arguments of
--                      src/runtime_instance.hpp
--   Debug              friendly_pointer_name of src/debug.hpp
--   Debug/Worker       the state, the actions and the worker of a debug build: src/debug.hpp, the
--                      calls of src/ready_operation.cpp, and src/main/main.cpp; Debug/Log, Recorded and
--                      Stops have its theorems
--   Tests              each theorem at a concrete input
--
-- How the state corresponds to the code. A shared pointer is an address into a table of the state, so
-- two copies of a pointer are aliases. A flow's pointer carries the address of its counter, which is set
-- once. Each lambda that the code attaches to an event is a constructor of `Action`. `assert` is
-- checked, as in a build without NDEBUG. Counts are 64-bit and wrap around.
--
-- Order of calls. An action runs to its end before the code goes on, and the actions that it makes
-- ready run inside it, as in the code on one thread; `consume` keeps them as one list, the nested ones
-- in front. Its fuel is the number of the actions taken and of those queued anywhere, each of which runs
-- at most once; the theorems on the counters show that it is enough. `consume_all` of Queue takes its
-- fuel as an argument. The loop of a worker is run for as many rounds as it is given draws.
--
-- The theorems on pending operations ask for `max_task_depth` 0, the value that the runtime is built
-- with (src/runtime/runtime.hpp), so that no operation runs on the stack of the thread that queues it.
--
-- Several threads are modelled in Event, Waiting and Pool, where the schedule is any sequence of steps,
-- and in Debug/Worker, where other threads' events come between the worker's. Elsewhere an operation is one
-- step, so the second look at the flag in `attach_or_do_action` never finds a change. In Pool a task is
-- its name and the registrations of its body, and waits for no flow; a worker that finds nothing looks
-- again, so executions are bounded by their work and not by their steps. A theft adds the draw to the
-- worker's id as an int: in Pool there is no step with a sum that overflows, and in Worker it is a fault.
--
-- Collective and Publication have stores of their own, with the contents of the data: the events of the
-- uses' flows and the objects; the calls of release_use are recorded there.
--
-- Not modelled: the event that an attached action completes, which no caller uses; the running-task
-- pointer and the text that the debug state is printed as; the Kokkos and OpenMP workers; allreduce_use with two uses,
-- which begins with a failing assertion; sources that are not compiled or are commented out as a
-- whole (src/pending_task.cpp, src/worker/worker.cpp, src/flow/mergeable_flow.hpp). The body of a task, the join of the threads, `std::atoi`, the reduction
-- operation and the serialization of an object are parameters.
mod Prelude
pub mod Machine
pub mod Flow
pub mod Register
pub mod Pending
pub mod Release
pub mod Runtime
pub mod Worker
pub mod Event
pub mod Pool
pub mod Waiting
pub mod Collective
pub mod Publication
pub mod Queue
pub mod TryLock
pub mod ConcurrentMap
pub mod ConcurrentDeque
pub mod Arguments
pub mod Debug
pub mod Tests
