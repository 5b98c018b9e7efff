-- ===== src/Lib.antt =====
-- A model of the school management backend, a FastAPI monolith over PostgreSQL, with the theorems
-- that make its fee, attendance, authentication, import and examination services correct.
--
-- The program. A request reaches a router, which builds a RequestContext from the caller's token and
-- passes the caller's tenant and branch to a service. The service reads through its repository, tests
-- what it read, raises HTTPException or writes, and commits; the SQLAlchemy session of the request is
-- rolled back and closed at the end. PostgreSQL holds the constraints of the tables. Fees and
-- attendance read the tables of students, branches and the academic structure, and tell the
-- notification service what they did. A fee file is uploaded, validated row by row against the
-- enrollments, shown as a batch of rows, and committed into accounts with their ledger. An exam is
-- created for branches and programmes, the marks of its students are entered section by section, and
-- it is published when all of them are in.
--
-- The files.
-- - Common: lists as the rows of a query (WHERE, JOIN, ORDER BY, UPDATE), predicates on all rows,
--   Boolean tests, and integers over the native numbers.
-- - Models: the tables, of app/modules/*/models.py (tenants, branches, users and audit events in
--   Organisation; then Academic, Students, Fees, Attendance, Imports, Notifications and
--   Examinations).
-- - Database: app/core/database/session.py. `Db` is the tables, `Session` the session of a request
--   with what is committed, what it has executed and what waits for a flush, `Action` a computation
--   on it that ends in a result or an error, and `run_request` the life of the session around a
--   request.
-- - Security/Context: app/core/security/context.py. Security/Jwt: app/core/security/jwt.py, with its
--   settings and the functions of base64, json, hmac and uuid as the records `Settings` and `Library`
--   (Codec), JSON values (Claims), and the proofs (RoundTrip, Sound); `LibraryLaws` is what the
--   round trip assumes of the library. Security/Text: texts as lists of code points.
-- - Authentication: the access context of a caller. Repository and Service have the names of the
--   functions of repository.py and service.py in app/modules/authentication; `context_of` is
--   _active_context with the end of resolve_request_context, and `get_request_context` and the guards
--   are those of app/core/security/dependencies.py. `AccessTables` is the tables that they read
--   (Models/Access). Grants and Contexts hold the proofs: Grants what an assignment that the query
--   selects stands on, Contexts what a context does.
-- - Fees: app/modules/fees. Schemas, Receipts (the number's text), Repository (Labels, Listings,
--   Queries, Statements) and Service have the names of the functions of schemas.py, repository.py and
--   service.py. FeeRepository.create_fee_account is `insert_fee_account`, and
--   FeeService.list_fee_accounts is `list_accounts`. `record_payment` is the end of post_payment, and
--   `write_payment` the body of its try. Ledger, Payments, Stages, Opening, Setup, Outcome, Numbering
--   and Scope hold the proofs; Opening is about a new account in any transaction.
-- - Attendance: app/modules/attendance. Schemas, Repository, Responses and Service have the names of
--   the functions of schemas.py, repository.py and service.py (Responses those that look rows up and
--   build the answer). Routes is router.create_session with its dependencies: the branch scope and
--   the permissions. Sessions, Lifecycle, Marking, Opening, History, Guards, Submission and
--   Duplicates hold the proofs; `Request` in History is the requests of the router on sessions, of
--   which all but the creation stand behind their dependencies.
-- - Imports: app/modules/imports, as far as it is about fee files. Values, Reports, Matches, FeeCells,
--   FeeRows and FeeFile are FeeImportValidator of validators.py with the query that it makes:
--   `fee_row_report` is the body of its loop, `validate_fee_rows` the loop,
--   `parse_and_validate_fees` the whole. Repository, Upload, Corrections and Commit have the names
--   of the functions of repository.py and service.py; `write_import` is the body of the try in
--   commit_fee_import. FeeLoop, Checks, Accepted, Distinct, Counts and Normal hold the
--   proofs on the validator, Ledger, CommitOutcome and Committed those on the commit, Harmless
--   and Corrected those on the corrections. Example is the data of the
--   tests.
-- - Notifications: app/modules/notifications. Repository has the names of the functions of
--   repository.py, each write a function of the committed tables; Dispatch has `normalise_phone` and
--   the chunks of `_dispatch_batch_chunked`, whose loop takes as fuel the number of items, which is
--   enough; Once holds the proofs on the log. Commits is create_log on the session of a request,
--   which it commits; the fee and attendance theorems are applied to it. A text of a status is given
--   in upper case.
-- - Examinations: app/modules/examinations. Work is its actions: every write is committed before the
--   next statement, so that they map the committed tables. Texts holds the identifiers as texts, with
--   Python and PostgreSQL as the record `Platform`; Targets the query of the sections that an exam is
--   for; Repository and Marks (`upsert_student_exam_record`) the functions of repository.py; Service,
--   Entry (bulk_save_student_exam_records), Listing (list_exams, _attach_marks_summary), Provision and
--   Creation those of service.py, with repository.create_exam as `add_exam`; Scores the loop over
--   the marks of a message; Routes the routes of router.py, and Requests a sequence of them.
--   `publish_found` is the end of publish_exam, and the printing between is left out. What Python and
--   PostgreSQL do with texts and dates is in the fields of `Platform`, which no definition fixes; the
--   overlap theorem assumes only that the programme's text has 36 characters and is parsed. Kept,
--   KeptRecords, Keeping, KeepingMarks, KeepingCreation, Counting, Publication, Storing, Overlap and
--   Figures hold the proofs.
-- - The modules named Tests, CommitTests, CorrectionTests and Example hold concrete tables on which
--   the theorems are applied.
--
-- Representation. A UUID is a natural number, a day and a time are natural numbers, and an amount is
-- an integer of hundredths, as the columns are numeric with two decimals. The clock, the generated
-- UUIDs, the collation, LIKE and right are fields of `Env`, and no theorem assumes anything of them.
-- A statement is executed if the constraints of its table allow it, and fails as a whole if not. A
-- receipt's digits are computed on fuel: one step more than the number itself, which is enough since
-- each step divides it by ten. A cell of a sheet is what openpyxl gives; the methods of str, Decimal,
-- lower and ILIKE of PostgreSQL are the fields of `TextLibrary`, and reading a workbook and hashing a
-- file those of `FileLibrary`, and what a cell is after it is written and read again is a function.
-- No theorem assumes anything of these. A mark is a whole number of quarters, for which the sums of
-- the source's floats are exact. The tables are those of the models: a statement that names a column
-- or a table that no model has is refused.
--
-- Not modelled. Requests are run one after the other: neither row locks are modelled nor what two
-- requests do that have both read before one writes. The notification service is an argument of the
-- operations that call it, and what a theorem assumes of it is a hypothesis. Sending a message, its text and the choice of its recipients are not
-- modelled. Columns that no modelled operation reads, JSON metadata, and the parsing of requests
-- are left out, and so are the routes for reminders, the two attendance lists, the verification of
-- passwords, student files and templates of the imports, and the other modules of app/modules. Of
-- the messages about marks only the figures are modelled.
pub mod Common
pub mod Models
pub mod Database
pub mod Fees
pub mod Attendance
pub mod Security
pub mod Authentication
pub mod Imports
pub mod Notifications
pub mod Examinations
