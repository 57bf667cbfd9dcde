-- ===== src/Lib.antt =====
-- A verification library of FaceIdentify, the parts of its backend (Python) that decide who gets
-- the worker, which job runs, how a run is stopped and recovered, what the representation index
-- is told to do, whom a face belongs to, and how memory is shared with the worker process.
--
-- The parts and their files:
--
-- - Lease: backend/ml/supervisor/lease.py. `WorkerLease` is a record of its private fields; a
--   ticket is a number, a thread is identified by its ticket. Each critical section of `held` is
--   one function (`join`, `resume`, `give_up`, `leave`), `close` and `_next` are functions, and
--   Lease.System is the step function of all threads around one lease: an event names which
--   thread runs its next critical section. The monitor makes a section atomic, and a thread may
--   wake at any time that its predicate holds. The lease counts the calls of `notify_all`, and
--   Lease.Watched adds which threads are to test their predicate: those that begin to wait and
--   those that were notified since their last test. The clock and the log line are left out.
-- - Database: backend/infrastructure/db/optimistic.py and the statements that the repositories
--   build, over a table as the list of its rows. Sorting by a key, unique keys and the revision
--   guard are shared by every table.
-- - Jobs: backend/app/jobs (models.py, repository.py). The row, the checks of the table and every
--   operation of `JobRepository`.
-- - Processing: backend/app/processing (models.py, run_repository.py, repository.py, cancel.py,
--   scheduler.py). The rows, the segments and checkpoints of a run, `CancelProcessingUseCase` and
--   `ProcessingScheduler`; a transaction that fails leaves the library as it was.
-- - Database.Transactions: backend/infrastructure/db/unit_of_work.py, the loop of
--   `UnitOfWork.write`. Its fuel is the number of attempts that the policy allows, and it is
--   enough, since each turn of the loop is one attempt.
-- - Pagination: backend/api/pagination.py. `paginate` and the keyset of a newest-first query.
-- - Recovery: backend/app/recovery/startup.py. The transaction that ends what a dead process left
--   behind, with the queries beside it.
-- - IndexQueue: backend/app/memory/index_operation_repository.py and the transactions of
--   index_coordinator.py that requeue and settle operations.
-- - Wire: backend/ml/contracts/wire.py and the error codes of protocol.py. The readers of
--   untrusted values; a value is what its JSON says, and a number with a sign is an integer of
--   this library.
-- - SharedMemory: backend/ml/contracts/shared_memory.py, the descriptor of an array;
--   SharedMemory.Ledger: backend/infrastructure/resources/shared_memory.py, the segments of one
--   process and their ledger. SharedMemory.Strides says what an index addresses,
--   SharedMemory.Views which threads have a view open.
-- - Supervisor: backend/ml/supervisor/supervisor.py. `MlSupervisor` (the class MLSupervisor) is a
--   record of its private fields beside the worker processes that are alive; what a worker
--   answers is an argument of each operation.
-- - Memory: backend/app/memory/models.py and repository.py. The rows, their transitions and
--   pages, and the keys of the index.
-- - Identities: backend/app/identities (models.py, use_cases.py) and the links of
--   backend/app/people/models.py. Identities.Merge, Identities.Split (with Identities.Support)
--   and Identities.Resolve hold `merge_identities`, `split_identity` and
--   `resolve_recognition_candidates`, Identities.Revalidation `resolve_ann_candidates`. The loop
--   that follows merges runs on fuel, for which as many turns as there were merges are enough
--   (Identities.Resolution); Identities.Changes runs sequences of the use cases, each committed
--   or rolled back.
-- - People: backend/app/people/use_cases.py. Links of identities to people, and names, for which
--   Python's `strip` and `casefold` are parameters; People.History runs sequences of the use
--   cases of people and identities.
-- - Recognition: backend/app/recognition (assessment.py, reasoner.py). An assessment with a
--   policy becomes a decision. Similarities are an ordered type with a difference, a parameter
--   that stands for Python's floats.
--
-- They interact through the tables: People and Identities work on the same tables of identities
-- and links, Identities calls Memory for an index key and queues operations of IndexQueue, the
-- descriptors of SharedMemory are read with Wire, and Processing and Recovery call Jobs and
-- Database on the same library of rows.
--
-- New identifiers of evidence, links and lineage are taken to be new, as `new_id` makes them.
-- Identifiers are numbers in the order of their stored text and times are numbers, so that a tie
-- is broken as the database breaks it. Every loop of the modelled code is over a finite list and
-- is structural recursion, but for the retried transaction and the walk over merges.
--
-- Not modelled: the HTTP layer but for its pages, the desktop shell and the frontend, image
-- decoding, the neural networks and the vector index (third party), the schema migrations and the
-- file system. SQL is modelled by what its statements do to the rows.
pub mod Database
pub mod Identities
pub mod IndexQueue
pub mod Jobs
pub mod Lease
pub mod Memory
pub mod Pagination
pub mod People
pub mod Prelude
pub mod Processing
pub mod Recognition
pub mod Recovery
pub mod SharedMemory
pub mod Supervisor
pub mod Wire
