-- ===== src/Lib.antt =====
-- Reverb finds the consumers that a change of a contract breaks: adapters index the repositories of a
-- workspace, the definitions and references that they find are joined into evidence edges, and reviews,
-- suppressions and budgets bound what is reported and what a run may cost, and checks deliver it. This
-- library models the core of packages/domain and packages/application, the planner of incremental
-- adapters and the controls of the GitHub host.
--
-- The parts, the file of each, and the code:
--   Ports            failures of a port and JavaScript's numbers: packages/application/src/ports.ts
--   Errors           the domain's errors and `invariant`: packages/domain/src/errors.ts
--   Canonical        canonical JSON and its hash: packages/domain/src/canonical.ts
--   Contracts        the kinds of contracts: packages/domain/src/vocabularies.ts
--   ExecutionBudget  ExecutionBudgetV2, its reservations, releases and report:
--                    packages/application/src/execution-budget-v2.ts, packages/domain/src/execution-v2.ts
--   SourceBudget     BudgetedRepositoryReader: packages/application/src/source-budget.ts
--   Overlay          the artifacts of a base generation under an overlay: packages/domain/src/overlay.ts
--   Registry         the workspace registry: validation, alias resolution, snapshots and suggestions:
--                    packages/domain/src/registry.ts
--   Suppression      suppression rules, their lifecycle, matching, creation and audit:
--                    packages/domain/src/suppression.ts
--   Graph            the join of changes with references, observations of a consumer and transitive
--                    candidates: packages/domain/src/graph.ts
--   Scope            the repositories that an analysis may consider, their authorisation, and the readers
--                    that stay inside: packages/domain/src/analysis-scope.ts,
--                    packages/application/src/analysis-scope.ts and scoped-reads.ts
--   Incremental      the partitions that changed paths invalidate:
--                    packages/adapter-sdk/src/incremental.ts
--   Promotion        gates and decisions of promotion, and histories of a stratum's records:
--                    packages/domain/src/policy.ts
--   Controls         kill switches, advisories and the ownership of checks:
--                    packages/host-github/src/controls.ts
--   Findings         the creation of findings: packages/domain/src/finding.ts, whose records stand with
--                    Delivery
--   Delivery         what a check discloses, shows and whether it is written:
--                    packages/domain/src/delivery.ts
--   Base             what the parts share: tests, lists, sorting, sets of texts, maps, results
--
-- How they interact: Graph asks Registry for the service behind a reference's target, and Registry
-- validates its snapshot at each resolution, as the source does; Registry, Suppression and Graph make
-- identities by Canonical; both budgets and the readers of Scope answer with the results of Ports; errors
-- are those of Errors. Scope reads the memberships and consents of Registry; the readers of Scope hand out
-- the references of Graph. Findings joins the changes, edges and consumers of Graph, and Delivery plans a
-- check from its findings. Controls and Delivery read the records of Promotion.
-- Within a part the file of its name holds the definitions, or passes them on, and the files below it
-- hold the lemmas, named for what they prove; a file Examples holds its tests.
--
-- The correspondence: an operation has its source's name in snake case. A class is a record of its
-- fields, a method a function that returns the object that it leaves; a method that throws is a Result,
-- or an Option where the error does not matter. A method that awaits its delegate is two functions, what
-- runs before the await and what runs after it, and an interleaving is a list of steps. A loop is a
-- recursion with the source's early exits; a Map or a Set is a list in order of insertion.
--
-- What is left to parameters: `Platform` holds what the source takes from JavaScript and node:
-- localeCompare, the order of sort() without a comparator, the length of a text in UTF-16 code units,
-- trim, normalize, toLowerCase, JSON.stringify, toISOString and SHA-256. Where a theorem needs that a
-- collation orders texts, it says so. The readings of a clock and the answers of a delegate are
-- arguments, and so are the authorisation port, the readers and stores behind a scope, and the
-- text.slice of JavaScript. The theorems on scopes are about a port that answers; `execute` of Scope takes
-- one whose promise may be rejected, and is the same resolution where the port answers.
--
-- Choices: an instant is its milliseconds, since canonical instants are texts of one width that compare
-- as their times; Array.prototype.sort is a stable insertion sort. A number that a constructor or a budget
-- checks is a safe integer or anything else (`Number` of Ports); the bytes that a read of SourceBudget asks
-- for, which the source does not check, are a whole number of either sign or NaN (`Amount`), and the
-- theorems on reads say where they are about whole numbers from 0 on; the depth that a transitive search
-- is given is a whole number from 0 on. Where the source subtracts, the model subtracts on natural numbers
-- after the test that makes it exact, or where the source takes a maximum with 0, and on `Amount` with its
-- sign. Identities that end in a SHA-256 pass the tests of their form. The numbers of metrics and gates are
-- finite doubles that are not negative, as exact fractions.
--
-- Fuel: two loops run on fuel. The `while` loop of Incremental gets 1 + n runs for n partitions, since
-- each run but the last invalidates a partition that was not. The search of Graph for transitive
-- candidates gets `steps_needed b k`, which is
-- 1 + b + ... + b^k for b edges and a depth limit k: an item of the queue that may be followed k edges
-- more adds at most b items, and each of them may be followed k - 1 more.
--
-- Not modelled: the output hashes of reports, joins, rules, promotion records (an argument there) and
-- projections of checks, the safe details of errors, and the throws of canonical JSON on values that are
-- not JSON; the extensions of a registry snapshot beyond their part in its hashes; the simulation of
-- policies and the metrics beyond those that a gate reads; the telemetry of the host; the reviews,
-- coverage, snapshots of adapters and use cases of packages/domain and packages/application; the adapters
-- and the rest of their SDK, the stores, the rest of the hosts, the command line, the schemas and the
-- tools.
mod Base
pub mod Ports
pub mod ExecutionBudget
pub mod Errors
pub mod Canonical
pub mod Contracts
pub mod Registry
pub mod Suppression
pub mod Graph
pub mod SourceBudget
pub mod Overlay
pub mod Scope
pub mod Incremental
pub mod Promotion
pub mod Controls
pub mod Delivery
pub mod Findings
