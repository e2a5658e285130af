-- ===== src/Lib.antt =====
-- A verification library of TorqPro's backend: threaded-joint engineering with governed lifecycles.
--
-- Parts and files (paths from the repository's root):
-- - Prelude and its children: names passed on, Boolean tests, the equality class, list and result
--   laws, texts as code points.
-- - Governance: backend/governance, the append-only event log behind three review lifecycles.
--   Governance/Enums, Transitions, Errors, Timestamps, Decisions and Events are enums.py,
--   transitions.py, exceptions.py, models.py and events.py. Contract is the abstract class
--   GovernanceEventStore of store.py as operations with laws, which the service takes as a
--   parameter; File is FileGovernanceEventStore, and File/Refines makes it a value of that
--   record. Service is the engine of service.py: `_execute_transition` is `execute_transition`,
--   which is `decide` (all that only reads) and then `finish` (the append). Commands has the nine
--   command functions. Api is `_run_command` of api.py with the guard of ownership.py, and
--   Api/Reads the read routes of the event log.
-- - Governance/Service/Plan restates the engine on the event list alone; Outcomes says what a call
--   has done by how it ended; Log is the histories that the rules explain. The theorems on
--   sequences of commands stand in the children of Governance/Api.
-- - Revisions: the read side of joint revisions. Source is the two reads of
--   backend/joints/service.py on the table's rows, Projection the adapter
--   backend/governance/adapters/joint_revision.py, and Texts, Arguments, Selection, Sorting, Pages
--   and Query are backend/governance/joint_revision_query.py: the text functions, the validation,
--   the search and order, `sorted`, the pagination, and the two queries that compose them. The
--   queries take the bulk adapter as `read`, with the state of what it reads passed on. Export is
--   backend/governance/joint_revision_csv.py, Export/Reading and Export/Bytes a reader of what it
--   writes. Routes is the read routes of api.py on all of this.
-- - Sqlite: a table with an integer primary key, its reads, updates and next id.
-- - Joints: backend/joints and backend/api/routes/joints.py. Tables is schema.py with its
--   constraints, exceptions.py and the audit log; Service and Creation are service.py, one function
--   per operation; Commands is the operations that write, as a type; Routes is the routes with
--   their exception mapping. Changes says by cases what a call has done, Invariant what sound
--   tables are, History how a row goes on, Projected composes the adapter of Revisions with these
--   tables. An operation reads in one transaction and writes in another: what others write in
--   between is the argument `gap` of its World, and the clock's readings are `now`. A snapshot is
--   kept as the dict that its JSON is of, ids are natural numbers, and no row is ever deleted. The
--   operations are on ids that sqlite3 can bind, below 2^63; the routes test the id of a request.
-- - Validation: backend/production_validation. Tables is the tables of repository.py beside those of
--   Joints; Rules is enums.py and validators.py; Studies, Creation, Reviews, Datasets and
--   Measurements are service.py, one function per operation; Commands is the operations that write.
--   Routes is backend/api/routes/production_validation.py. An id of a path that the first statement
--   binds is tested in Routes, every other integer of a request where a statement is to bind it.
--   Studies/Changes and Studies/Effects say by cases what a call has done to the studies, and
--   Measurements/Changes to the measurements. Floats, the JSON text and its hash are the record
--   Outside. Columns that belong together are nested records (Limits, Origin, Circumstances).
--
-- Representation: a status text is a text, as in an event, and parsed where the source parses it.
-- Metadata is any type with `==` and `{}`, since the package does not interpret it. An exception
-- is a value of the result. A file is kept as what `read_text` and `json.loads` make of it, and
-- whether the lock file can be opened and how the writes to come end are lists in the state.
-- `uuid4().hex` is an argument, `fresh`. The format check of timestamps runs on code points, with
-- the decimal digits of Unicode 14. `str.lower` is a parameter of the queries, since its table is
-- the interpreter's. `sorted` is an insertion that uses the same test `<` and is stable, as
-- Python's is. Only `digits` (`str` of an int) has fuel, the number itself: each step divides by
-- ten. Every other recursion is on a list or a counter.
--
-- Not modelled: the advisory file lock itself (an append is one step, and Governance/Api/Races is
-- about overlapping commands), the text of error messages beyond their arguments, pydantic's type
-- checks of well-typed fields, the import of measurements from CSV with its route, and the other
-- parts of the backend.
pub mod Prelude
pub mod Governance
pub mod Joints
pub mod Revisions
pub mod Sqlite
pub mod Validation
