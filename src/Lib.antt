-- ===== src/Lib.antt =====
-- Verification of the Mizan Labs backend (backend/mizan), the server of a laboratory management
-- system. Paths below are from the repository's root.
--
-- The program. Every business record moves through a configurable workflow; people act on it under
-- the grants of their roles; its number comes from a numbering scheme; test results are computed by
-- formulas that administrators write; and the documents that are issued go into a Merkle log that
-- anyone can check. Staff log in by sessions whose refresh tokens rotate; roles are built from a
-- catalogue of actions; periodic jobs run under a scheduler; and rules turn events into
-- notifications. A transition of the workflow asks the effective permissions whether the actor may
-- take it, runs guards, saves the record and the audit entry, and runs effects, which allocate
-- numbers, emit events and issue documents; disabling a user revokes their tokens; an event reaches
-- the rules of its tenant, which look for the members of its branch.
--
-- The files.
--   Prelude, Text: Boolean tests on native numbers, lists measured by them, and the methods of
--     Python's `str` that the program uses.
--   Transparency: backend/mizan/apps/documents/transparency.py. `merkle_root`, `inclusion_proof` and
--     `verify_inclusion` over an arbitrary hash, with the loops of the check as `climb` and `walk`;
--     Log has the operations on one tenant's leaves and heads (`append_leaf`, `current_root`,
--     `proof_for`, `publish_head`). Split, Equations and Paths carry Complete and Sound.
--   Authz: backend/mizan/platform/authz/permissions.py and backend/mizan/apps/identity/authz.py.
--     Bindings, `allows`, `branch_ids`, `merge`, the filter of rows (`predicate`, in Authz.Filter,
--     over any query algebra), the resolution of memberships and the guard of an operation
--     (Authz.Resolve). Authz.Catalog is backend/mizan/platform/authz/catalog.py, the actions.
--   Identity: backend/mizan/apps/identity. Sessions has `login`, `refresh` as its two transactions,
--     `logout`, `change_password` and `disable_user`, with the steps of users who act at the same time
--     in Sessions.Steps; Roles expands a template, Roles.Defaults has the default ones, Roles.Install
--     their installation and Roles.Services the changes of a role.
--   Workflow: backend/mizan/apps/config/workflows.py and guards_effects.py. Rows as records with
--     foreign keys followed; Spec parses guard and effect entries; Catalog has the constants; Validate
--     validates, activates and finds workflows; Perform carries a transition out on a record and a
--     database, with rollback; Builtin has the guards and effects of this app; Simulate is the dry
--     run. Install, Defaults and Installing are backend/mizan/apps/config/defaults/workflows.py,
--     template by template.
--   Numbering: backend/mizan/apps/config/numbering.py. Digits and the module itself are the text of a
--     number and the validation of a pattern; Allocate has the operations on counters and reservations,
--     Schemes those on schemes, Defaults is backend/mizan/apps/config/defaults/numbering.py.
--   Formula: backend/mizan/platform/formula. Tokens, Lexer and Parser are lexer.py and parser.py, with
--     a printer of tokens in Parser.Printer; Nodes, values and errors; Operations on values; Eval is
--     the evaluator with its budgets, and Engine (with Engine.Rules) is engine.py, the evaluation of a
--     test definition over one run.
--   Terms: backend/mizan/apps/config/payment_terms.py, milestones and their amounts.
--   Pagination: backend/mizan/platform/api/pagination.py, pages by cursor.
--   Scheduler: backend/mizan/platform/scheduler.py. The registry of periodic jobs, what is due, and a
--     tick, with the jobs as an argument that may fail.
--   Notify: backend/mizan/apps/notify. Recipients is recipients.py; Policies has the templates,
--     preferences, quiet hours and throttling of dispatch.py, Dispatch the rows of its table,
--     Dispatch.Rules the way from an event to deliveries, Dispatch.Attempts the worker and its
--     fallbacks, Dispatch.Direct the messages outside any rule and the retries of an operator.
--
-- Interfaces. `Transparency.Hash` stands for SHA-256 and the bytes of a digest; `Authz.Filter` takes
-- Django's query objects with their documented laws; `Workflow.Perform` takes the registries of
-- guards and effects, and Perform.Builtin fills them; `Formula.Numbers` is the arithmetic of Decimal,
-- `Formula.Eval.Context` the environment, the registry of functions, Python's `str` and the clock;
-- `Pagination.Codec` the text of a cursor; `Notify.Dispatch.Outside` what the dispatcher calls. The
-- sessions take the hash, the password check and their random values as arguments.
--
-- Bounds and fuel. The recursion on slices of `merkle_root` and `inclusion_proof` gets the number of
-- leaves as fuel, and each slice is shorter; the loops that double or halve a number get that number.
-- `allocate` keeps its bound of 10000 rounds as the code has it; `preview` has no bound in the code,
-- and gets one round more than there are reserved numbers, since each round passes another of them. The
-- lexer gets the length of the text as fuel, and each token takes a character of
-- it; the parser gets 14 for each token and 12 more, since each of its levels passes one on to the next
-- and no token is read twice. The evaluator recurs on the formula, and needs no fuel. Counters and
-- indices are natural numbers, without the width of the database's columns.
--
-- Not modelled: the framework's requests, rows and migrations, the log-in library, cryptography, PDF
-- and image rendering, storage, mail, the user interfaces and the deployment, which are libraries or
-- plumbing; nor the outbox of events, digests and cron expressions, organisation, issuance and the
-- replay of stored answers.
pub mod Prelude
pub mod Text
pub mod Transparency
pub mod Authz
pub mod Workflow
pub mod Numbering
pub mod Formula
pub mod Terms
pub mod Pagination
pub mod Identity
pub mod Scheduler
pub mod Notify
