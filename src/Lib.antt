-- ===== src/Lib.antt =====
-- A model of the decision core of the workspace governance control fabric, the Python package in
-- packages/control_fabric_core/src/control_fabric_core, with the theorems that make it correct.
--
-- The fabric answers one kind of question: may this be done now? Each of its core components reads
-- a request of dynamic values, checks it against tables or current facts, and returns a decision
-- with its reasons, a digest, and an event for an append-only ledger.
--   manifests.py is Manifest: the checks of a governance manifest in Validate, with a place for
--     each message, and what a manifest is in Spec.
--   validation_planning.py is Plan: Targets and Scopes have the target and the scopes that satisfy
--     it, Template the commands, Receipts and Reuse the reuse of receipts, Waivers the waivers,
--     Checks one validator, and Rounds and Build the loop of build_validation_plan and its
--     decision. It reads a manifest that Manifest accepts and is measured by Budget; Scopes has the
--     node ids of graph_ingestion.py.
--   validation_execution.py is Execution: Command parses a command and builds its environment,
--     Safety says what blocks it, Attempts has the retries, Run the result of each check of a plan,
--     Outcome that of the receipt, and Event its event. What a process does at an attempt is a
--     function of a Machine.
--   performance_budgets.py is Budget: the contracts of the operations and the profiles in Table and
--     Resolve, the evaluation in Decide, the limits of a run in Limits, the pages in Pages.
--   policy_admission.py is Policy: Read reads a subject, Checks has one function for each check of
--     evaluate_admission_policy, Evaluate composes them and builds the decision and its event.
--   lifecycle.py is Retention: Candidates and Plan are the plan that a dry run shows, Effects has
--     the compaction of the ledger and the deletions, Apply their order and the event. Disk is the
--     state: the regular files with their bytes and times. The ledger is the file that the events
--     of every component are appended to.
--   canonical_json.py is Canonical: the domain, the text, the digest and the projection of a
--     content.
--   agent_action_policy.py is Agent, which uses Canonical for its digests and Retention.Apply for
--     the append to the ledger: Codes collects the codes, Decide issues the decision, Run appends
--     its event.
-- Prelude, Value, Equality and Platform are shared: Python's texts, integers, lists, dynamic values
-- and their equality. Examples has the theorems at concrete inputs.
--
-- What Python's library computes and this one does not is a parameter: SHA-256, JSON printing, the
-- parsing and printing of times, the text of a number, str.format, shlex.split, path resolution,
-- the success of opening and unlinking a file, and the JSON schemas. A time is a number of
-- microseconds. Only Budget.Pages.walk, a client of paginate_items, runs on fuel: it gives none where
-- that runs out, and one request more than there are items is shown to be enough. Every other
-- function recurs on its data.
--
-- Not modelled: the two readings of the clock by an application without a time, which are one here;
-- an exception of int() on an infinite float; a write that fails halfway; a symbolic link that
-- changes between plan and application; the loading of the agent-action contracts; the id of a
-- plan, a digest of the rest of it; the edges and properties of a manifest's graph; the files of a
-- run's artifacts and the digests and summaries of its receipt; and the readiness services,
-- registry, database, worker, API and CLI, which are input and output around such decisions or
-- other components of the same shape.
pub mod Prelude
pub mod Value
pub mod Platform
pub mod Equality
pub mod Manifest
pub mod Plan
pub mod Execution
pub mod Budget
pub mod Policy
pub mod Retention
pub mod Canonical
pub mod Agent
pub mod Examples
