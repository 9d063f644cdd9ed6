-- ===== src/Lib.antt =====
-- A verification library for Stalky, a desktop assistant that watches, under the user's permission,
-- what is on the screen, cuts it into activity segments, and keeps memories of what it learns.
--
-- The parts of the program, and the files that model them:
--
-- * Permissions (Permissions/Machines, Permissions/Events): crates/mega-permissions/src/lib.rs. One
--   `PermissionMachine` for each capability; `apply` and `request_access` (`begin_request` there)
--   return the machine with the result. The registry's `BTreeMap` is a list of pairs.
-- * Capture (Capture/Frame and Capture/Service): crates/mega-capture/src. `FrameIngest` validates
--   frames, copies them without the padding of their rows, and counts them. `CaptureService` starts
--   and stops a backend; the backend's callbacks are `on_event`. A section of the source under the
--   inner mutex is one function, and the events that may come between the two sections of a `start`
--   or `stop` are an explicit list. The hash of std and the Display text of an error are parameters.
-- * EventBus (EventBus/Bounds, EventBus/Delivery, EventBus/Wakeups): the bounded queue of
--   crates/mega-runtime/src/event_bus.rs. tokio's `Notify` is the parameter `Notify`, with its
--   documented law that a notification wakes the waiter or is kept for the next wait.
-- * Lifecycle and Supervisor: crates/mega-core/src/lifecycle.rs and
--   crates/mega-runtime/src/supervisor.rs. `run` takes which branch of `select!` completes.
-- * Segmentation (Batches, Runs, Texts, Times, Events below it):
--   crates/mega-memory/src/segmentation.rs. `admit` takes one source event into the open segment,
--   or closes that one first; `split_extraction_batches` cuts the texts for the extractor.
-- * Model, Candidate and Reconcile: crates/mega-memory/src/model.rs, the records of
--   crates/mega-memory/src/extraction.rs, and crates/mega-memory/src/reconcile.rs, which plans one
--   mutation of the memory for each candidate. `f32` is the parameter `Float32` of Model/Floats.
-- * Privacy (Luhn, Runs, Case below it): crates/mega-memory/src/privacy.rs. `inspect` runs the
--   detectors of secrets and of payment cards over a text, in the order of the source.
-- * Extraction (Candidates, Accepted, Responses): the validation of crates/mega-memory/src/extraction.rs,
--   of one candidate, of a whole response of the extractor, and of a memory entered by hand.
-- * Jobs (Enqueue, Claim, Finish, Runs and the files of their proofs): the queue of extraction jobs in
--   crates/mega-store/src/queue_repo.rs and the operations' events of operations_repo.rs. A table is a
--   list of rows in the order of insertion, which also breaks the ties of an ORDER BY; a WHERE clause is
--   a Boolean test on a row; a fresh UUID is an argument. One method is one transaction, one step of
--   `Step`. Failures of SQLite itself are left out.
-- * Retrieval (Scopes, Ranking, Render, Escape, Budget, Vectors): crates/mega-memory/src/retrieval.rs,
--   which filters and ranks memories and renders those that fit into a budget of tokens. `total_cmp` of
--   `f32` and the decimal form of a number are parameters, and so is the `f64` of the cosine similarity.
-- * Profile (Members, Parts): crates/mega-memory/src/profile.rs. `build_profile` sorts the active memories of
--   one projection, and pushes each to its stable or its current part.
-- * Store (Writes, Inserts, Checks, Plans, Applies, Reviews, Deletes, and the files of their proofs):
--   the memories in crates/mega-store/src/memory_repo.rs, and their review in operations_repo.rs.
--   `apply_plan` writes a plan of Reconcile, once; `create_manual`, `edit_manual`, `confirm_pending`,
--   `reject_pending` and `delete_memory` are the user's. Tables are as in Jobs, with the columns,
--   constraints and cascades that these transactions meet; `str::to_lowercase` and the UUID made from a
--   name are parameters. `search` and `get_memory` (Store/Search, Store/Found) read memories back; the
--   full-text index, `LIKE` and the order of equal rows are the parameter `Sqlite`.
-- * Store/Context (Wanted, Assembled, Assemblies, Refusals, LongQueries beside it):
--   crates/mega-store/src/context_repo.rs. `assemble_context` searches the store for a request, ranks
--   what it finds and renders it, both with Retrieval, and logs that it did.
-- * Accessibility (Normalizer, Policy, Service): crates/stalky-accessibility/src. `normalize_tree`
--   makes a bounded tree without secrets of the one that the system gives; `validate_action` judges
--   an action against the element it is for; the service starts and stops a backend's session, and
--   takes its callbacks. As in Capture, a section under the inner mutex is one function, and the
--   callbacks between two sections are an explicit list, each with what `try_lock` finds.
--
-- They interact in that order, Profile and Accessibility beside the others: a granted permission lets the
-- capture or the accessibility service start; frames become source events, which the queue carries
-- and the segmenter gathers; a closed segment becomes a job, which a worker claims under a lease; the
-- extractor, a remote model, turns its text into candidates, which are validated; each is reconciled
-- with the memories it matches, and the plan is applied to the store; a context's searches
-- find what is relevant to a request, and the retrieval ranks and renders it. A supervisor keeps each
-- worker's lifecycle.
--
-- Conventions: fallible code returns `Result`; code that changes its receiver returns the new one
-- first. Strings are lists of code points. Unsigned integers are natural numbers with the
-- wrap-around or saturation of the source written out (Prelude/Words), `usize` has 64 bits, and
-- `i64` times are those of Prelude/Int, which saturate at the bounds of 64 bits. A panic is `none`.
-- The loops are over lists, or over the rows of a frame, so nothing needs fuel.
--
-- Not modelled: the foreign functions of macOS (native.rs of each crate), the other repositories of
-- crates/mega-store, and of memory_repo.rs the opening and migration of the database; serialisation
-- (crates/mega-ipc), the HTTP backend (backend) and the user interface (apps). tokio's `watch` and
-- `broadcast` channels, which event_bus.rs wraps, are only called.
pub mod Candidate
pub mod Capture
pub mod EventBus
pub mod Extraction
pub mod Jobs
pub mod Lifecycle
pub mod Model
pub mod Permissions
pub mod Prelude
pub mod Privacy
pub mod Profile
pub mod Reconcile
pub mod Accessibility
pub mod Retrieval
pub mod Segmentation
pub mod Store
pub mod Supervisor
