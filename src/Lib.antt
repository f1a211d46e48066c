-- ===== src/Lib.antt =====
-- A model of the core of the FEBAL test-automation tool (apps/api/app), with the theorems that make it
-- correct. Paths in the comments are below that directory.
--
-- The tool explores a web application with a language model, learns business flows from what it has
-- seen, runs generated tests, and classifies and files the defects that they show. Every call of the
-- model goes through one gateway with budgets; the explorer is a loop of nodes that stops by itself;
-- the worker runs the tests of a flow; the knowledge graph is mined for flows; a failed flow becomes
-- a defect, which may become an issue in Jira.
--
--   * Prelude: the names that the modules share, with lists, dictionaries, texts as lists of code
--     points (Python's str.strip, str.lower and `in`), and signed integers.
--   * Gateway: services/llm_gateway.py and core/llm_pricing.py. State holds what a call reads and
--     writes: the Redis counters, the cache, the kill-switch, the ledger of usage rows and the
--     number of completions that the provider was asked for; one access of a call to Redis or the
--     database may fail (Fault), and the writes before it stay. Caps is _effective_caps, Pricing
--     the price table with lookup_price and compute_cost, Reserve the estimate, the checks of the
--     caps and _invoke, Complete the function `complete` step by step, and complete_all a
--     sequence of calls.
--   * Explorer: services/explorer. Budget is budget.py; Converge is the node converge, the edge
--     should_continue and the loop of graph.py, whose other nodes may write anything that they
--     write in the code (Lap); Persist is persist_to_neo4j, which calls Kg.Writer; Nodes is
--     check_cancel, navigate, enumerate_node, decide and act of nodes.py; Actions, Locators and
--     Risk are actions.py, locators.py and risk.py.
--   * Worker: services/worker. Classifier is classifier.py, Job is run_flow_job and what it
--     calls.
--   * Execution: Store is the tables of models/execution_history.py with the queue and the kill
--     flags, Rank the risk-based tier, Execution itself exec_service.py, the consumer of
--     services/worker/consumer.py (which runs Worker.Job) and the start of a run in
--     routers/executions.py. The purge of a kill leaves the messages that a consumer has
--     prefetched, and a job may raise while its heal journal is ingested; History is
--     exec_history.py and the counters of services/worker/progress.py.
--   * Runs: services/run_service.py. Roles: services/rbac.py and require_role of
--     core/security.py.
--   * Gates: services/gates/assertion_gate.py, over the graph of Kg.Writer. Generation:
--     generate_scenarios of services/generation.py, which asks Gates and writes to Scenarios.
--   * Stability: services/stability.py, the acceptance of a generated spec.
--   * Scenarios: services/scenario_service.py, the review queue. Routes is edit_scenario,
--     approve_scenario and reject_scenario of routers/scenarios.py, which ask Gates before they
--     write.
--   * Kg: services/kg. Risk is risk.py, Coverage is coverage.py, Flows is mine_flows and
--     extract_signals of flows.py. Writer is writer.py: a graph of nodes and edges, told apart by
--     what a MERGE names, the clauses of Cypher on it (Cypher 5, which refuses the query of
--     link_step), and in Calls one function for each function of the file; Client is any sequence
--     of calls. Codegen: services/codegen/locators.py.
--   * Defects: services/defects. Classify is classifier.py and infra_health.py, Pipeline is
--     pipeline.py, autonomy.py and the evidence of evidence.py.
--   * Healing: services/healing. Outcome is heal_outcome of confidence.py and stats.py, Journal
--     is ingest.py.
--
-- Conventions. Money is a natural number of micro-dollars: a price is a number of cents for a million
-- tokens, and a cost is rounded half up as in the code. Times are in microseconds, dates are numbers
-- such as 20250131, the temperature is in thousandths. Caps, overrides and counters are natural
-- numbers. A missing Redis counter reads as 0, keys do not expire, and INCRBYFLOAT is exact. The
-- letters and digits that `lower` and parse_index know are those of ASCII. A set of texts is a list
-- that is compared as a set.
--
-- Parameters stand for what is not in the repository: the provider of the model, the tokenizers,
-- the digest of a cache key, urlsplit, urlunsplit and urljoin, the page on which a visit ends, the
-- elements of a page, the subprocess that runs a spec, the kill flag as it is read, three regular
-- expressions, the hash of a fingerprint, the Gherkin parser, the answers of Jira, the resolution
-- of a path, what json.loads makes of a journal, and whether a page object can be rewritten. Neo4j,
-- RabbitMQ, aio-pika and SQL are taken as documented: a SET of null removes a property, a
-- transaction commits before its result is tested, a requeued message goes back to the head of the
-- queue and the exception of its handler goes on, a query without ORDER BY gives rows in the order
-- of their ids. json.dumps and json.loads are functions that give back a job.
--
-- Fuel. `explore` counts laps: as many as the step cap are enough for the run to stop. `walk` counts by
-- how many pages a path is shorter than the cap of eight, which is how far the code extends it.
-- `attempt_loop` counts the attempts left of the three that the code makes.
--
-- Not modelled: the browser, HTTP and SQL; the texts of prompts and issues; the similarity scores of the
-- healing; the store of targets, the templates of code generation, search, dashboards and login; the rounding
-- of floats in rates and ranks, which are kept as fractions, and in coverage; a worker whose database
-- fails; a Jira that does not answer.
pub mod Prelude
pub mod Gateway
pub mod Explorer
pub mod Worker
pub mod Execution
pub mod Roles
pub mod Gates
pub mod Generation
pub mod Codegen
pub mod Runs
pub mod Stability
pub mod Scenarios
pub mod Kg
pub mod Defects
pub mod Healing
