-- ===== src/Lib.antt =====
-- LocalBook, the parts of its server that decide what an automatic job may change and that undo
-- what went wrong.
--
-- A job proposes actions on notes. `validate_action_set` checks their shape, the policy engine
-- answers allow, confirm or deny, and a transaction executor applies the operations through the
-- vault and keeps a journal, from which the job is rolled back, undone, or recovered after a
-- crash. The scheduler starts jobs by time or by hand, holds a task back while a run of it is
-- active, and hands a run to the job runner, which may let an allowed job execute without a click.
-- Every path that reaches the vault is validated and resolved below the vault's root.
--
-- The files and the code they model:
-- - Base and Base/: the shared library. Lists, tests and lemmas over the native numbers, equality
--   as an instance argument, `Result` for code that raises, signed integers.
-- - Actions: server/actions/schemas.py, `Action`, `validate_action`, `validate_action_set`. A UUID
--   is a number, a text of a hunk is the list of its code points. Actions/Patches: `apply_hunks`
--   of server/actions/patches.py, over a UTF-8 codec that is a parameter.
-- - Policy, Policy/Evaluate: server/policies/engine.py and rules.py. `deny_rules` is the sequence
--   of `if`s of `_evaluate_deny_rules`; `evaluate` and `evaluate_set` are the methods of that
--   name. Python's `casefold` and the formatting of a list of paths are parameters.
-- - Scheduler: the run rows of server/scheduler/models.py and their store, the in-memory mirror of
--   server/history/service.py. Scheduler/Service: server/scheduler/service.py, with `begin_run`
--   for `_begin_run`, `gate` for its test of the last run, `pipeline`, `finalize`,
--   `watchdog_pass`, `pause_for_reconfigure` and `stop`. Scheduler/Runner:
--   server/scheduler/runner.py. An instant is a number of microseconds; the clock is read once in
--   each call, as `now`, and the UUID a call draws is `id`. What the retention cleanup does to the
--   rows, and the agent service and index checker of the runner, are parameters.
-- - Scheduler/Cron: server/scheduler/cron.py, from the words of an expression to `next_cron_fire`;
--   a day is its offset from today (Scheduler/Slots holds the order of days and times), and the
--   calendar, the zone database and Python's `int` and `isdigit` are parameters.
-- - Recovery and its children: server/recovery/schemas.py, journal.py (Recovery/Journal),
--   executor.py (Recovery/Executor), undo.py (Recovery/Undo) and service.py (Recovery/Explicit).
--   The vault is the interface `Vault`, with one field for each method of `VaultService` that
--   recovery calls; its laws are the record `IsLawful` of Recovery/Steps, over a digest that keeps
--   contents apart, and allow a call which raises to have changed the files at its own paths.
--   SHA-256 and Base64 are parameters. Tests/Memory fills the interface with a vault in memory.
-- - Paths: `normalize_relative_path` of server/vault/schemas.py and `validate_relative_path` of
--   server/vault/path_safety.py, on texts as lists of code points, with the sizes that UTF-8 gives
--   them. Paths/Resolve: `PathSafety.resolve`, over a file system that may answer every call
--   differently.
-- - Rag and its children: server/rag/schemas.py, server/rag/citations.py (Rag/Citations),
--   server/rag/context/builder.py (Rag/Context and Rag/Builder) and `estimate_tokens` of
--   server/rag/chunking/markdown.py. A source id `S<n>` is the number n, and a path, a heading and
--   an answer are lists of code points; what is white space, what is a digit and how a number is
--   printed are parameters. The fields score and tags, which no decision here reads, are left out.
-- - History: the rows of server/history/service.py, in memory or in the tables of its repository.
--   History/Retention: `cleanup_retention` and `_cleanup_memory`, with the queries of
--   server/history/repository.py as list functions. History/Interval: server/scheduler/cleanup.py.
--   History/Scanner: server/recovery/scanner.py, `scan` and `mark_recovery_required`.
-- - Trash, Trash/Items, Trash/Bin: server/vault/trash.py, the entries of the index with
--   `from_dict` and `to_dict`, and `purge_expired`, `delete` and `empty`. The file system is the
--   interface `Disk`, which may refuse each call; `IsReversible` says that a rename it has made
--   can be made back. `writable` says whether a write of the index succeeds.
-- - Tests: concrete inputs for the theorems.
--
-- Each component has child modules for its proofs, named for what they are about. Loops are over
-- lists and are structural recursion. Three run on a number: `scan_days` over the 400 days that
-- the source scans, and `range_step` on fuel of `high + 1 - low`, which is at least the number of
-- values of a step of 1 or more, and `pieces` on the length of the text, of which each piece takes
-- one character or more.
--
-- Not modelled: threads, timers, the worker loop and the choice of a scheduler backend; SQL
-- storage as such; the field validators that run inside pydantic; log messages and the free text
-- of exceptions; the vault service itself, attachments, the trash operations that put an entry in
-- or take it back, and the watcher; agents, language models, retrieval, chunking, indexing and
-- search; HTTP routes, configuration and the front ends. They are input and output, third-party
-- libraries, or parts that these decisions do not depend on.
pub mod Base
pub mod Actions
pub mod Policy
pub mod Scheduler
pub mod Rag
pub mod Recovery
pub mod History
pub mod Paths
pub mod Trash
pub mod Tests
