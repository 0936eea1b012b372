-- ===== src/Lib.antt =====
-- tie: the collection engine of the triple store (tiedb/), and the engine that runs pipelines of
-- jobs (runner/pipeline) with the selections that make up a job's input (io/compose).
--
-- A collection holds triples of strings. Strings are interned (tiedb/intern.go) as chains of
-- 24-byte blocks, one trie level for each block, or whole where they are content addresses. The
-- forward and reverse associations (tiedb/assoc.go) map the id of a key, or of an object, to an
-- association set (tiedb/associationset.go), whose entries give the position of the triple's
-- record. Records live in an arena in memory mode, and in 50-byte slots of a file otherwise
-- (tiedb/slots.go). One writer (tiedb/filehandling.go) applies queued modifications and serves
-- reads after them. Queries (tiedb/query.go) are algebra on association sets; batches and
-- directories (tiedb/apply.go, tiedb/mkdir.go) are several operations under the collection's write
-- lock.
--
-- A pipeline is a list of steps, built from a request in an order that follows their dependencies;
-- the selections of a step (io/compose) name the steps that it takes its input from, and so span
-- the graph. Advance (runner/pipeline) records the outcomes of jobs, then passes over the steps,
-- submits those that are ready and skips those that cannot run, until a pass changes nothing, and
-- closes the pipeline once all steps are terminal. Resume reopens a closed pipeline, and Cancel
-- ends one.
--
-- Which file models which part:
--   Prelude, Prelude/*            tests on numbers, lists, Go's maps and integers
--   Tiedb/AssociationSet          tiedb/associationset.go: AssociationSet and its operations;
--                                 Slices, Shards: the laws of the two larger tiers; Refines: the
--                                 three tiers as one map; Visits: ForEach, Size, HasRelation;
--                                 Algebra: intersect, intersectByAssociate, exclude
--   Tiedb/LockedTree              tiedb/lockedtree.go: lockedTree; Hashes: the hash functions;
--                                 Refines: the shards as one map
--   Tiedb/Triples, Tiedb/Records  tiedb/datastructures.go, tiedb/filehandling.go: values and frames;
--                                 Words, RoundTrip: encoding and decoding
--   Tiedb/TripleCache             tiedb/triplecache.go; Recency: the order of use; Uses: Get, Put, Evict
--   Tiedb/Slots                   tiedb/slots.go; Reserves: reserved and free slots
--   Tiedb/Collection              tiedb/datastructures.go, tiedb/collection.go: the state; Trees: the
--                                 lookups through the levels
--   Tiedb/Intern                  tiedb/intern.go; Blocks, Lookups, Interned, Unchanged, Finds: blocks,
--                                 tables, their invariant, and lookups as functions of the tables;
--                                 Inserts, Paths, Inserted, Texts: one block, a
--                                 path of blocks, a value, and its text
--   Tiedb/Writer                  tiedb/filehandling.go: applyFileMod, drainWriteQueue, readSlot and
--                                 tiedb/assoc.go: readTripleAt; ReadYourWrites: reads after writes
--   Tiedb/Assoc, Tiedb/Replace    tiedb/assoc.go: Add, Delete, Update, UpdateAdd; SetValues, SimpleUpdate
--   Tiedb/Resolve                 tiedb/assoc.go: resolveTriple, resolveEntry; tiedb/sort.go: Sort
--                                 without an order or a page
--   Tiedb/Query                   tiedb/query.go: Get, GetReverse, resolveQuery; Holders, Selects: what
--                                 a query selects
--   Tiedb/Apply, Tiedb/MkDir      tiedb/apply.go, tiedb/mkdir.go; Apply/Validates: validation and counts
--   Compose                       io/compose/spec.go: validate; io/compose/select.go: ResolveSteps,
--                                 Dependencies; Needs: what the dependencies say
--   Runner/Pipeline               runner/api/pipeline.go, runner/api/job.go: the records;
--                                 runner/pipeline/pipeline.go: stepReadiness; Ready: what it says of
--                                 the dependencies
--   Runner/Pipeline/Advance       runner/pipeline/pipeline.go: Advance, submitStep, syncFinishedSteps,
--                                 finalizeIfDone; Visits, Settles: the passes end; Passes, Grows,
--                                 Outputs, Ordered: what may happen to a step; Finishes, Moves: the pipeline as a whole
--   Runner/Pipeline/Build         runner/pipeline/pipeline.go: build, validateStepInputs; Checks: what the
--                                 checks show; Starts: what a built pipeline is
--   Runner/Pipeline/Order         runner/pipeline/pipeline.go: orderSteps; Degrees: its in-degrees;
--                                 Drains, Follows, Sorts: its loop; Succeeds, Acyclic: its result
--   Runner/Pipeline/Submit        runner/pipeline/pipeline.go: Submit, EntryHandler
--   Runner/Pipeline/Rerun         runner/pipeline/pipeline.go: stepsToRerun; Graph: its edges; Closes:
--                                 its result is closed; Exact: its result
--   Runner/Pipeline/Resume        runner/pipeline/pipeline.go: reopen, Resume; Repairs: what reopen
--                                 changes; Reuses: what a resume takes over and what it runs again
--   Runner/Pipeline/Cancel        runner/pipeline/pipeline.go: Cancel; Stops: what it leaves
--   Tests/*                       concrete inputs
--
-- State is passed explicitly: an operation takes a Collection and returns the one after it. An
-- error is an Option, a message a data type. Every operation that writes holds the collection's
-- mutex, so a run of the program is a sequence of operations; the locks of single shards and the
-- goroutine of the writer are not modelled, and a read sees the queue drained as readSlot drains
-- it. A Go map is an association list with distinct keys, and its order of iteration is the order
-- of the list. A pointer that may be nil is an Option. Machine integers keep their wrap-around.
-- All loops of the collection engine are structural recursion on the list, the number of shards or
-- the level. Three loops of the pipeline engine are on fuel: the loop of orderSteps, which gets as
-- many rounds as there are steps and puts one step in order in each, the passes of Advance, which
-- get one more than there are steps, enough because every pass but the last ends a step's being
-- pending, and the recursion of stepsToRerun, which gets one more than there are steps, enough
-- because every call that goes on marks a step.
--
-- The lock of a pipeline makes each of its operations one step of the model. The outcomes of jobs,
-- the building of a manifest, the submission of a job and the clock are a parameter, the record
-- Outside, whose answers may depend on the jobs submitted before; what the engine writes to the
-- store is kept as a list in order. A message is a data type that keeps what the message names.
--
-- Not modelled: system calls, sockets, the opening, locking and loading of files, search, the
-- scheduler and the services of the runner, the expansion of globs, the gateways, the client and
-- the commands. The encoding of content addresses (BlobPolicy) and the failure of a write at an
-- offset (RecordFile.fails) are parameters of a collection. In the file, a write replaces one
-- whole frame and a read gives what was written last: writes that overlap because they are not
-- aligned, and read errors of the device, are not modelled.
pub mod Prelude
pub mod Tiedb
pub mod Compose
pub mod Runner
mod Tests
