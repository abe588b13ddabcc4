-- ===== src/Lib.antt =====
-- A verification library for go-dashboard, whose backend runs workflows of steps over requests, keeps
-- them in SQLite, and builds requests from Slack threads. All code modelled is in backend/internal.
--
-- The parts and their files:
--   Prelude        tests, lists, int64 values, texts, errors and results; what all files share
--   Json           JSON documents as trees, and raw messages that hold one, nothing, or malformed text
--   Trigger        trigger/request.go: `Request`, its validation, and string maps
--   Artifact       artifact/artifact.go: the record of a result
--   Capability     capability/registry.go: the registry and its listings, over an interface of functions;
--                  capability/text.go in Text and capability/classify.go in Classify
--   Config         config/config.go: `Load`, over the environment as a function
--   Llm            llm/ollama_client.go: `Generate` and `Status`
--   Summary        summary/service.go and prompt.go: `Service.Generate`
--   Workflow       workflow/domain.go in Status, Definition and Run; workflow/registry.go in Registry;
--                  workflow/manual.go in Manual; workflow/executor.go in Executor
--   Storage        storage/store.go: the tables in Db, `database/sql` in Sql, the conversions of rows in
--                  Tables, the methods of `Store` in Runs and Lifecycle, all as one type of calls in Calls;
--                  storage/slack_store.go in Slack, with a file for each table and Slack.Calls for all calls
--   ModelRouter    modelrouter/router.go and the interface of llm/client.go
--   Orchestration  orchestration/service.go: `Selector.Select` and `Service.Start`
--   Slack          slack/domain.go in Domain and Timestamp; slack/service.go in Event (`normalizeEvent`), Service
--                  and Context (`BuildContext`); slack/client.go in Client
--   Http           httpapi: slack_handler.go in Slack, workflow_handler.go in Workflows, summary_handler.go in
--                  Summaries, catalog_handler.go in Catalog
--   Tests          runs on small data, and the theorems at concrete inputs
--
-- How they interact: `Orchestration.start` selects a workflow and gives the request to the engine, which
-- is `Workflow.Executor.Control.start`; that validates the request and creates a pending run in the
-- store. The worker (`Workflow.Executor.Worker.work_round`) claims it in the store and calls
-- `Workflow.Executor.Execute.execute`, which maps inputs, calls capabilities and writes steps.
-- `Http.Slack.events` checks a signature and gives the event to the application, which is
-- `Slack.Service.handle_event`: that claims the event in the Slack tables, stores its message, fetches a
-- thread that is new with `Slack.Client`, and starts a workflow with the context of the thread.
--
-- State. A `Db` holds the rows of the five tables that store.go uses and of the five of slack_store.go, with
-- the keys and constraints that their inserts meet. A `Conn` adds a script of failing statements; a
-- transaction that fails restores the tables. `World` is what the executor and the Slack service run in:
-- the connection, the three contexts, the control of the active run, the clock, and a script of what others do
-- before each call of the store, during each call of a capability and in each backoff: cancel a run, shut down, let a deadline pass, or call any method of the store.
--
-- Go maps are association lists, and ranging over one follows the list. The Go `int` and
-- `time.Duration` values of definitions are integers; the manual timeouts and the
-- context version of a thread wrap as an int64. The `float64` of a classification is a sign, a mantissa and a
-- power of two. A
-- `time.Time` is a count of nanoseconds from the zero time, and what the tables keep is milliseconds.
-- Sentinel errors are constructors, and the texts that `fmt.Errorf` adds are not kept: where the
-- program stores `err.Error()`, the model stores the text of the sentinel. A nil dereference or an
-- index out of range is the error `panic`.
--
-- Fuel: only the loop over the pages of a thread (`Slack.Client.fetch_pages`) has it, since the API decides how
-- many there are; more rounds than the rank of the first cursor are enough where cursors descend in a rank. The
-- other loops, over attempts, steps, rows and messages, are recursions on the rounds or the list that is left.
--
-- Parameters are what is not code of the repository: SHA-256 and HMAC, the random part of `NewID`, what sends an
-- HTTP request and what `http.NewRequestWithContext` refuses, `encoding/json` into structs, `time.ParseDuration`, `url.Parse`, the environment, and the
-- interfaces through which the parts call each other. A call of the Slack store has one present time for
-- all its reads of the clock, and the script of a world does not write the Slack tables.
--
-- Not modelled: the SQL engine, migrations and `Open`; the loop around the rounds of the worker, `StartWorker`
-- and `Shutdown`; logging; the HTTP router with its middleware and the health check, which are calls of chi;
-- main.go, which wires the parts; and the frontend.
pub mod Prelude
pub mod Json
pub mod Trigger
pub mod Artifact
pub mod Capability
pub mod Config
pub mod Llm
pub mod Summary
pub mod Workflow
pub mod Storage
pub mod ModelRouter
pub mod Orchestration
pub mod Slack
pub mod Http
pub mod Tests
