-- ===== src/Lib.antt =====
-- go-bpmn executes BPMN processes. A model (model/) is parsed from BPMN XML; the engine
-- (engine/internal/) turns each process into a graph, whose nodes carry the element, its entity
-- and its event definition, and drives the element instances ("executions") of a process instance
-- through that graph. Executions form a tree: each one counts, in its execution count, the
-- executions in its scope. A queue for each BPMN process bounds how many of its process instances
-- are active. The entities live in repositories, in memory (engine/mem/) or in PostgreSQL
-- (engine/pg/).
--
-- This library models the core of that: the enumerations, the model's elements and their lookups,
-- the graph with every operation on it, the validation of a process, the queue of process
-- instances, and the jobs, tasks and incidents, each with its in-memory repository. A function of
-- the source is a function here, named alike in snake case; a method that changes its receiver or
-- an argument returns it. The files are:
--
-- - Shared: names of the libraries, tests on numbers, integers, results, maps with string keys,
--   `strconv.Itoa` (Shared/*.antt).
-- - Enum: `ElementType` of model/element_type.go, and `InstanceState`, `JobType`, `TaskType`,
--   `UserTaskState` and `WorkState` of engine/model.go, each with `Map…`, `String`, `MarshalJSON`
--   and `UnmarshalJSON`.
-- - Model: `Element`, `SequenceFlow` and the element specific models of model/element.go and
--   model/model.go (Model/Element.antt), the classification of element types (Model/Kinds.antt),
--   and the lookups (Model/Lookup.antt).
-- - Entity: the entities of engine/internal that the parts below read and write, and the nullable
--   values of pgtype; Entity/Task.antt is `TaskEntity` with the tasks it can hold.
-- - Graph: engine/internal/graph.go. Graph/Node.antt is `node` with `nextState` and
--   `nextMultiInstanceState`; Graph/Build.antt is `newGraph`, `setEventDefinitions`, `node` and
--   `ensureSequenceFlow`; Graph/Create.antt is `createExecution`, `createExecutionAt`,
--   `createProcessScope` and `startMultiInstance`; Graph/Branch.antt, Graph/Continue.antt and
--   Graph/MultiInstance.antt are `continueExecution` and `continueMultiInstanceExecution`;
--   Graph/Join/Counter.antt and Graph/Join/Loop.antt are `joinParallelGateway`. The proofs are in
--   Graph/States.antt, Graph/Nodes.antt, in Graph/Counts/*.antt (execution counts), and in the
--   other files of Graph/Join.
-- - Validate: `validateProcess` of engine/internal/graph.go and `elementPointer` of
--   engine/internal/common.go (Validate/*.antt).
-- - Execution: `addExecution` (Execution/Add.antt) and the choice of jobs and tasks in
--   `continueExecutions` of engine/internal/execution.go (Execution/Work.antt), with the proof in
--   Execution/Supported.antt; and `evaluateExclusiveGateway` of
--   engine/internal/element_instance.go (Execution/Exclusive.antt), with the proofs in
--   Execution/Chosen.antt, and `evaluateInclusiveGateway` of the same file
--   (Execution/Inclusive.antt), with the proofs in Execution/Targets.antt and
--   Execution/Forked.antt. How Go writes a time is a parameter.
-- - Store: the loops over rows that the repositories of engine/mem share. Store/Rows.antt finds
--   and replaces a row; Store/Locking.antt locks, unlocks and queries the rows of all partitions,
--   with the proofs in Store/Locking/*.antt; Store/Partitions.antt inserts, selects and updates a
--   row of a partition, with the proofs in Store/Partitions/*.antt.
-- - Jobs: engine/mem/job.go (Jobs/Repository.antt), `LockJobs` and `UnlockJobs` of
--   engine/internal/job.go (there too), and `CompleteJob` (Jobs/Complete.antt) but for the
--   handling of the job, whose effect on the jobs is covered by steps of any kind
--   (Jobs/Steps.antt). The proofs are in Jobs/Conditions.antt, Jobs/Locked.antt, Jobs/Phases.antt,
--   Jobs/Phases/Lives.antt, Jobs/Leases.antt and Jobs/Retries.antt.
-- - Tasks: engine/mem/task.go (Tasks/Repository.antt) and `ExecuteTask` of engine/internal/task.go
--   (Tasks/Execute.antt), with the method `Execute` of a task as an argument, a function of the
--   task's entity and of the store that may write any table, and the proofs in
--   Tasks/Executed.antt.
-- - Incidents: engine/mem/incident.go (Incidents.antt) and `ResolveIncident` of
--   engine/internal/incident.go (Incidents/Resolve.antt, Incidents/Resolved.antt).
-- - Variables: engine/mem/variable.go (Variables/Repository.antt), `SetProcessVariables`
--   (Variables/Set.antt) and `GetProcessVariables` (Variables/Get.antt) of
--   engine/internal/variable.go, with the encryption of engine/encryption.go, whose ciphers are a
--   parameter. Variables/Contents.antt says what the rows hold, Variables/Changes.antt,
--   Variables/Written.antt and Variables/Placed.antt how that changes, Variables/Mapped.antt what
--   the entities of a command are, Variables/Assigned.antt what a command does, and
--   Variables/Read.antt what is read afterwards. The data of two variables of a command are
--   different objects.
-- - Durations: engine/iso_8601.go without the JSON forms of durations. Durations/Parse.antt
--   accepts or refuses a text, Durations/Calculate.antt moves a time, Durations/Grammar.antt and
--   Durations/Meaning.antt say what a text means, apart from the code, Durations/Scanned.antt and
--   Durations/Written.antt that a time is moved by that, and Durations/Accepted.antt that each
--   text with such a meaning is accepted. A text is the list of its bytes, for ASCII characters;
--   `time.Time` with `AddDate` and `Add` is a parameter.
-- - Queue: engine/internal/process_instance_queue.go, engine/mem/process_instance_queue.go, and
--   `DequeueProcessInstanceTask` of engine/internal/process_instance.go. Queue/Table.antt is the
--   repository, Queue/Operations.antt the operations, Queue/Contract.antt the abstract queue and
--   what it means that the tables hold it, Queue/Chain.antt the linked elements,
--   Queue/Refines/*.antt the operations against the contract, Queue/Fifo.antt what the contract
--   counts, Queue/Runs.antt runs of many operations, in which only active process instances end,
--   and Queue/Order.antt what holds after them.
-- - Tests: a small process, a small queue, and the properties at these inputs.
--
-- Pointers to elements, sequence flows and element instances are addresses; a model is the
-- function that says what stands at an address. A pointer that may be nil is an option, its
-- dereference fails with `nil_dereference`, and a failed type assertion with `type_assertion`;
-- errors are values with their text. Where the code mutates the scope and an execution, both are
-- part of the result, under the premise that they are different objects. Signed numbers are
-- integers without the bound of 63 bits, since they count element instances and process instances;
-- IDs are natural numbers, but those of variables, where -1 marks what is deleted. Times and dates
-- are numbers, with 0 as the zero time; the key of a partition is its day. A Go map is an
-- association list, kept in the order of its keys where the code sorts them, or a function for the
-- partitions of a table. The number of rows of a partition is not bounded by the 31 bits of an ID.
-- No definition runs on fuel but the decimal digits of a number, which are at most as many as the
-- number, and one, and the walk from an element to its root, which takes at most as many steps as
-- there are elements.
--
-- Not modelled are: the XML parser of model/model.go, the loop of engine/internal/execution.go
-- that continues and stores executions, the handling of a job's completion, events, the variables
-- of elements, the PostgreSQL repositories, whose SQL runs in a database, and the HTTP server and
-- client, the workers, the command line and the daemons, which transport and configure.
mod Shared
pub mod Enum
pub mod Model
pub mod Entity
pub mod Graph
pub mod Validate
pub mod Execution
pub mod Store
pub mod Queue
pub mod Incidents
pub mod Jobs
pub mod Tasks
pub mod Durations
pub mod Variables
mod Tests
