-- ===== src/Lib.antt =====
-- yuviz, a platform for telephone calls that an AI answers: a model of the logic of its Python
-- services, and theorems on it.
--
-- A call is a session, services/conversation/session.py, with its configuration from libs/config_sdk.
-- fsm.py says in which state the session is, and event_bus.py carries what happens to it.
-- services/conversation/pipeline.py runs its turns, and reads the directive tags in the model's text
-- (directives.py), counts the caller's complaints (guardrails.py) and asks transfer_engine.py whether
-- to hand the call to a human. The model calls tools, which tools/orchestrator.py runs,
-- policy_resolver.py allows and middleware.py bounds, and whose durations tool_latency.py keeps. What
-- the agent says follows a workflow, a graph that libs/config_sdk/workflow.py checks when it is
-- published. Bridges with an unbroken stream of sound find the turns by libs/vad_sdk. Texts for
-- retrieval are cut by services/knowledge/chunking.py, calls of a campaign are placed by
-- services/campaigns, and people join a tenant by services/config/invites.py.
--
-- Base: Boolean tests and lists over native numbers, equality of keys as an interface, and Python's
--   dictionaries.
-- Fsm: services/conversation/fsm.py. Shapes is its data, `step` the trigger methods, `transition` is
--   `_transition`, `is_valid` is `_VALID`. Diagram, Timing, Closing and Turns hold the theorems.
-- Tools: the shapes of services/conversation/tools/types.py and the registry of registry.py.
-- Policy: services/conversation/tools/policy_resolver.py: `enabled_tools`, cut at its query into
--   `from_cache` and `refresh`, `narrow` and the derived companions. Theorems: Narrowing, Companions, Caching.
-- Middleware: services/conversation/tools/middleware.py: `with_timeout`, `with_retry`, `call_tool`.
--   Theorems: Retry, Breaker, Opening.
-- Orchestrator: services/conversation/tools/orchestrator.py: `run_turn` by `rounds`, which takes the
--   model's replies, each with the call of a tool that it ends in. Shapes is what a turn works on,
--   History the messages, Checks `_check_requested_date`, Dates date_sanity.py. Theorems: Counting
--   and Budget, Allowed, Answered, Ending, Endless, Fresh, and below Dates, Calendar and Correction.
-- Session: services/conversation/session.py, which drives Fsm. An operation is what runs between two
--   awaits of a method; Steps has them as data. Theorems: Moves, Turns, Outcomes.
-- Config: libs/config_sdk/providers/cache_aside.py and models.py. Shapes is the models, Rows what is
--   read of a row, `get_runtime_config` the configuration of a call. Theorems: Read, Chosen, Resolved.
-- Latency: services/conversation/tool_latency.py: `record_elapsed` is `record`. Theorems: Kept and
--   Recording, Averages, which compare the store with the list of all that was recorded, Means, Tenants.
-- Events: services/conversation/event_bus.py, by steps of its task between two awaits (`drain_step`).
--   Theorems: Orderly and Delivery, Subscribed, Serving and Served, Draining, with lemmas on lists of
--   calls in Calls.
-- Directives: services/conversation/directives.py: `feed` and `parse`. Theorems: Stream, Tags,
--   Splitting.
-- Workflow: libs/config_sdk/workflow.py. Words holds the methods of texts, Graph the data, Validate
--   the function `_validate_and_build`, and the modules below it its theorems, which Returned sums up.
--   Raw is the raw objects and their coercion, Parse `parse_graph` and `starter_graph`; theorems:
--   Checked, Starter. Reachable is `reachable`; theorems: Least, Checked.
--   Templates is `render`, with the theorems Clean, Plain, Filled and Fuel. Available is
--   `_variables_available_at`: Rounds is its loop, Exact says what it finds, on the ways of Ways; the
--   fuel allows each round to take one name from one step. Warnings is `graph_warnings`; theorems: Nil,
--   Clear, Fuel.
-- Runner: services/conversation/workflow/runner.py: `begin` is `WorkflowRunner.__init__`, `transition`
--   is `_transition`, with the caller's tools (`local_tools`) and `abandon_transfer`. Theorems: Moves,
--   Reached, Rejected, Cache. Resolve is `resolve_graph` with its fallback; theorems: Resolved, Runnable.
-- Transfer: services/conversation/transfer_engine.py (`evaluate`), with its data in Shapes, the counter
--   of guardrails.py, and what pipeline.py keeps of transfers (`begin_turn`, `end_turn`). Theorems:
--   Ready and Engine, Sessions, Escalation.
-- Vad: libs/vad_sdk/vad.py and silero_vad.py (`process`, `process_window`). Theorems: Counters, Onset,
--   Alternation.
-- Chunking: services/knowledge/chunking.py (`chunk_text`). Theorems: Sizes, Kept, Endless.
-- Invites: services/config/invites.py, with the indexes and keys of database/schema.sql (`create_invite`, `resend_invite`, `revoke_invite`,
--   `accept_invite`) and `_insert_user` of users.py. Shapes is the rows. Theorems: Matrix, Accepting,
--   Rows, Lifecycle, Cooldown, Slots, Kept.
-- Campaigns: services/campaigns/worker.py and dnc.py. Steps cuts a tick, and what follows
--   the completion of a job, at their awaits; theorems: Capped and Cap, Race, Numbers.
-- Examples: small inputs, on which the theorems are applied.
--
-- Readings of clocks are arguments, in whole milliseconds; so are the answers of the database and of
-- the telephone switch, and the ids and tokens that are drawn. A sentence for a human, or a text that
-- is only passed on, stands as a constructor or as it is. Logs and metrics are left out. A failed
-- transaction leaves the rows as they were.
--
-- What Python's `str` makes of a value that is not a text, and `int` of a text, is a parameter
-- (`Python` of Workflow/Raw), of which nothing is assumed; so are what date_sanity.py's regular
-- expressions find (`Hearing`), the reading and writing of dates (`IsoFormat`), `json.loads` (`Host` of
-- Config/Rows), what tools and providers answer, and what handlers do.
--
-- Fuel: `sub_tags` and `find_attrs` take the length of the text, of which each round uses up a
-- character or more; `split_long` takes the number of the words, of which each round takes one off
-- or more when the overlap is below the size; `substitute` and `remove_braces` take the length of
-- the text, of which each round uses up a character or more; `reach` takes one round for the start
-- and one for each connection; `while_changed` takes one for each name of each step, and a last one;
-- `names_in` and `bad_chunks` take the length of the text. Sizes, Least, Tags, Clean, Exact and the
-- modules Fuel prove that this is enough. The turns of the orchestrator and the runs of the session,
-- the bus and the store of latencies go through a list of replies or steps, and need none.
--
-- Not modelled: `graphs_equivalent`, which compares raw workflows for the editor; the extractor of
-- variables and the summarizer, which a move in a workflow only starts; the finalizer of sessions, and
-- the pipeline but for what it keeps of transfers; sockets, audio, gRPC, HTTP routers, queries and
-- third-party clients, which are input and output; the C++ gateway, the admin interface, and the
-- vendored module of the telephone switch.
pub mod Base
pub mod Fsm
pub mod Tools
pub mod Policy
pub mod Middleware
pub mod Orchestrator
pub mod Config
pub mod Latency
pub mod Session
pub mod Events
pub mod Directives
pub mod Workflow
pub mod Runner
pub mod Transfer
pub mod Vad
pub mod Chunking
pub mod Invites
pub mod Campaigns
pub mod Examples
