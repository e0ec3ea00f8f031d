-- ===== src/Lib.antt =====
-- A verification library for BTX Omni Prospect, the backend under backend/src/btx_omni.
--
-- The program helps a sales team: sellers and managers work on Actions (tasks with an approval and
-- subtasks) and on CRM proposals about them, routes to buyers are searched in a graph of accounts and
-- people, opportunities and risks are scored, a background monitor researches public events with a
-- language model, and the calls of that model are budgeted. The parts below keep state and decide,
-- and are modelled. What they call is a parameter: Python's hashlib, json and datetime formats,
-- uuid4, the tenant of the server's settings.
--
-- Prelude. Booleans and numbers, lists, text as Python strips and tests it, results that may
--   raise, a dict in insertion order, sorting.
--
-- Work (modules/work/service.py, domain/work.py, security/sessions.py under backend/src/btx_omni).
--   Domain: the data classes, with `__post_init__` as make_action and make_subtask. Repository:
--   MemoryActionRepository, an Action per identifier and a list of audit events. Policy:
--   ActionPolicy and `_require_version`. Mutation: what the five methods that change an Action
--   share, a lookup, a plan (guards, the updated Action, its event) and a save. Transition,
--   Approval, Edit, Subtasks, Create, Listing: the methods of WorkService, under their names.
--   Commands: a request as data, and runs of requests. Validity, Gates, Concurrency, Retries and
--   Listed hold the proofs. The keyword names of **changes that the code
--   reads are fields, each absent or present; a title is text or None, as the HTTP routes give it.
--   The SQL repository (persistence/actions.py) is not modelled.
--
-- Journal (monitor/research_state.py). Records: the rows of the two tables, the steps grouped by
--   their run. Operations (Acquire, Steps): MonitorResearchJournal, each method as one transaction
--   that is rolled back where it raises; a value to store is given by its canonical JSON text, and
--   times are instants in microseconds. Queries: get and latest_for_source; a stored result stays
--   text. Commands: runs of calls by any workers. The query latest_statuses_for_sources is not
--   modelled.
--
-- Communications (modules/communications/service.py, domain/communications.py,
--   persistence/communications.py). Drafts: the data classes. Repository: the two tables and the
--   transactions of SqlCommunicationRepository. Service and Creation: CommunicationService; the
--   delivery port, which is a provider's, is a record of functions that a request carries, so that it
--   may answer each call differently; the values of uuid4 are arguments. Listing: the two list
--   methods. Commands: requests and runs of them. Review, Deliveries and Deliveries.Steps hold the
--   invariants, Delivery and Sending the theorems. The display preferences are not modelled.
--
-- Sessions (security/sessions.py). Store: SessionStore, with the settings it reads, the clock and
--   the random tokens as arguments.
--
-- Usage (persistence/ai_usage.py). Receipts: the rows of the table. Budget: AiUsageRepository, each
--   method as one transaction; times are instants in microseconds from a midnight of UTC; a
--   time in milliseconds is an int or a finite float, as a numerator that is halved so many times. The
--   reporting query is not modelled.
--
-- Scoring (modules/scoring/action_priority.py). ActionPriority: the order of the action queue and the
--   loop that drops duplicates. A score is a number of units of a decimal fraction that is common to
--   the items; `_number` itself, which parses decimals, is not modelled.
--
-- Relationships (modules/relationships/routes.py). Graph: nodes, edges, queries and
--   `CanonicalRouteGraph.__init__`. Access: `_node_allowed` and `_edge_allowed`. Factors: the templates
--   and `_factors`, with the coverage as a pair of numbers. Search: `search` up to its list of paths;
--   the stack is a list with its top first. The callback and the clock are parameters, asked by the
--   number of edges examined. Bounds, Complete, Adjacency, Sound and Found hold the proofs. The loop
--   `while stack` takes fuel, max_expansions + 2: a round pops one frame and pushes at most one per
--   edge that it examines, so that frames and unexamined edges together shrink. Not modelled: utility,
--   grouping and the columns for display.
--
-- Proposals (modules/work/crm_proposals.py). Adapter: the sample CRM adapter
--   (integrations/hubspot/contracts.py), or any other port. Log: the CRM events among the audit events
--   of an Action, whose metadata are the records of Work/CrmRecords. Snapshot: `_snapshot`. Decisions:
--   preview, `_current` and decide. Sampling: execute_sample. Inspecting: inspect. Calls: the calls of
--   the Action workflow and of the proposals, in any order and each with its own workflow object. Sound,
--   Steps, Quiet, Runs, Execution, Completion and Repetition hold the proofs. Python's hashing,
--   `json.dumps` and `asdict` are parameters, and nothing is assumed of them.
--
-- Scoring, families and risk (modules/scoring/families.py). Rubric: FAMILIES, FactorInput, `_round` and
--   score_band. Assessment: assess. CustomerRisk: overall_customer_risk. PublicRisk: public_risk_rollup.
--   A Decimal is a number of units, with `unit` units to a point, and sums are exact; a rounded score
--   is in hundredths. Rounding, Ranges, Narrowing, Floors and Severity hold the proofs. Not
--   modelled: what is not a finite number, the decision id, the columns for display, and
--   customer_risk_projection.
--
-- The definitions run: Work/Examples.antt and its like in the other parts hold small runs. Only
-- the route search takes fuel, as said above: every other loop goes through a list.
--
-- Not modelled: the HTTP routes, the other SQL repositories, the assistant and its prompts, the monitor's
-- fetching and text matching, the projections for display, and the web client.
pub mod Communications
pub mod Journal
pub mod Prelude
pub mod Proposals
pub mod Relationships
pub mod Scoring
pub mod Sessions
pub mod Usage
pub mod Work
