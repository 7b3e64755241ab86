-- ===== src/Lib.antt =====
-- Verification of the traact_core library, a dataflow engine for real-time sensor data.
--
-- The parts of the program and how they interact. Source components (cameras, trackers) ask the
-- scheduler of their time domain for a buffer for a timestamp, fill it in and commit it. The
-- scheduler puts every timestamp, and every event that starts or stops the dataflow, into one of a
-- fixed number of concurrent time steps, or into a queue while all of them run. A clock predicts the
-- next timestamp of the synchronised sources. The tasks of a time step run on worker threads of the
-- Taskflow library, which record when a task starts and ends. What a component is, its ports and
-- groups of ports, is described by a pattern. A graph holds instances of patterns whose ports are
-- connected; from it the builders make the tasks of a time step and their order, and the time domain
-- buffer gives each output, with the inputs that read it, a buffer in every time step.
--
-- Which file models which part (paths from the repository's root):
-- - Datatypes: include/traact/datatypes.h. A timestamp or duration is its count of nanoseconds.
-- - Exceptions: the exceptions that C++ functions throw, as results.
-- - Util/Semaphore: include/traact/util/Semaphore.h (`Semaphore`, `WaitForInit`, `WaitForTimestamp`,
--   `WaitForMasterTs`, `WaitForValue`, `WaitForExactValue`).
-- - Util/CircularBuffer: include/traact/util/CircularBuffer.h.
-- - Buffer/SourceComponentBuffer, Buffer/ComponentBuffer and Buffer/TimeStepBuffer: src/traact/buffer,
--   the promise of a source, the ports that a component reads and writes (`getOutput`,
--   `isAllInputValid`, `isInputGroupValid`), and the event of a time step.
-- - Buffer/TimeDomainBuffer: src/traact/buffer/TimeDomainBuffer.cpp (`init`, `cancelAll`), and the
--   component buffers that the constructor of `TimeStepBuffer` makes.
-- - Component: src/traact/component/ComponentGraph.cpp.
-- - Dataflow/Clock: src/traact/dataflow/taskflow/TimeDomainClock.cpp (`newTimestamp`,
--   `getNextExpectedTimestamp`, `advanceTimeStep`).
-- - Dataflow/Scheduler: src/traact/dataflow/taskflow/TaskFlowInFlowScheduler.cpp. State holds the
--   members, Slots what takes and frees time steps (`runTaskFlowFromQueue`, `scheduleEvent`,
--   `freeTimeStep`, `timeStepEnded`), Cancel `cancelOlderEvents`, and Request `requestSourceBuffer`
--   and the loops of `start` and `stop`; Refusing is about requests after the stop event.
-- - Dataflow/State: src/traact/dataflow/state, in Tasks the events that workers record and in
--   Measurements what `TimeDomainStateProcessing` makes of them.
-- - Dataflow/TaskId: include/traact/dataflow/graph/task/TraactTaskId.h.
-- - Dataflow/Graph: src/traact/dataflow/graph/task/TraactTask.cpp; in Components and Order
--   builder/ComponentGraphBuilder.cpp, in Modules and Placed builder/ModuleGraphBuilder.cpp.
-- - Dataflow/TaskFunctions: src/traact/dataflow/taskflow/TaskFlowTaskFunctions.h (`taskSource`,
--   `taskGenericComponent`). The virtual functions of a component are a parameter.
-- - Pattern: src/traact/pattern/Pattern.cpp and Port.cpp, and the look-ups of
--   include/traact/util/Utils.h.
-- - Pattern/Instance: src/traact/pattern/instance/PortInstance.cpp and PatternInstance.cpp.
-- - Pattern/Graph: src/traact/pattern/instance/GraphInstance.cpp, with `connect` in Connect.
--
-- How the code is read. A method that holds a mutex from its first line to its last is one step. The
-- methods of the scheduler that change time steps hold `request_mutex_` or `flow_mutex_`, so a
-- history is a sequence of such steps. Vectors that are sized once are functions of the index. The
-- time step that ends is the oldest one in use, as the task flow links the ends of the time steps
-- one behind the other. A future is the data that its closure captured, and `resolve` is its body;
-- as the body waits, searches and claims under one mutex after the other, `resolve` has a state of
-- the scheduler for each. The last loop of `stop` takes the mutex in every round, so one round is a
-- step. A request holds `request_mutex_` throughout, but takes `flow_mutex_` for each of its parts:
-- it is modelled for the case that no time step ends between them. The padding loop's test reads
-- only the clock, which requests alone change, so time steps that end between its rounds do not
-- change when it ends. The timestamps are unbounded integers, as 2^63 nanoseconds are 292 years; the
-- clock's sum of timestamps is taken modulo 2^64, as in the code. The products with `double` weights
-- are the functions of a parameter, and so is `fmt::format`, of which only what a theorem says is
-- assumed. Tasks are the cells of a heap, and a pointer to a task is its address; a pointer to a
-- port is the port with its group and its pattern.
--
-- Fuel. The padding loop of `requestSourceBufferNewTimestampWait` has fuel, which is an argument of the
-- request; a loop that is still running when it is spent gives `out_of_fuel`. So has the wait of a
-- source task, one unit for each `wait_for`. In the search for loops of `connect` fuel is the depth of
-- the recursion, and some depth is enough for every graph that calls of `addPattern` and `connect`
-- build.
--
-- Not modelled: the task data of the time steps, which are pointers into the buffers, and the calls of
-- Taskflow that turn a task graph into one of its own; the life cycle of modules; start and stop of
-- whole time domains; serialization, logging, files, plug-ins, the CUDA graph and the TBB network,
-- which are calls of other libraries.
pub mod Prelude
pub mod Datatypes
pub mod Exceptions
pub mod Util
pub mod Buffer
pub mod Dataflow
pub mod Component
pub mod Pattern
