-- ===== src/Lib.antt =====
-- dsx-connect, second generation: the job control plane (dsx_connect_ng/dsx_connect_ng/jobs/), the
-- control plane of scopes (…/control_plane/), the workers with their queue consumer and the policy
-- engine (…/workers/), and the guarded transfer (dsx_transfer/dsx_transfer/).
--
-- The program scans objects for malware in a pipeline of workers. A job has items, and an item has
-- five stages: scan, policy, remediation, delivery, dianna. The job service keeps jobs and items in a
-- repository, and talks to the workers by messages that are first written to an outbox and then
-- published to a bus, at once or by a relay that flushes the outbox. Workers report on the stages
-- of an item, the service derives the state of the item from its stages and the state of the job
-- from its items, and asks for the follow-on work.
--
-- Parts and files:
-- Prelude: lists, tests, dictionaries with text keys in insertion order, JSON values, the text
-- functions that the service uses, a stable sort.
-- Jobs/Models, Jobs/Policy: jobs/models.py and the envelopes of jobs/contracts.py.
-- Jobs/World: the state, as a record of the dictionaries of InMemoryJobRepository and of the list of
-- InMemoryJobBus. A method is a function of the world that returns or raises, and leaves a world
-- in both cases. The clock, fresh identifiers, the bus, the control plane and pydantic's
-- validation are parameters (Env). The bus answers with an error or none, and with the world in
-- which the caller goes on, so that other tasks may have run meanwhile. Jobs/World/Keeps has the
-- rules for what methods keep, Jobs/World/Total those for methods that return.
-- Jobs/Repository: jobs/repository.py, class InMemoryJobRepository: the table of jobs (JobTable), the items
-- and scan leases (Items), the summaries (Summary), the outbox (Outbox), the fair selection of
-- pending rows (Fair).
-- Jobs/Service: jobs/service.py, class JobService: Lookup (get_…_or_404), Parent
-- (_refresh_parent_job_state), Stages (_derive_item_state_from_stages, _update_job_item_stage),
-- Cancel (cancel_job), Envelopes (_build_…), Publish (_publish_outbox_record), Requests (request_…),
-- Choices and FollowOn (_maybe_emit_follow_on_requests), Advance (advance_…_stage and the fast policy
-- path), ScanOnly (complete_scan_only, complete_scan_only_bulk), Submit (submit_job), Flush
-- (flush_outbox).
-- Jobs/Examples: runs on one small store.
-- Workers/Consumer: workers/consumer.py, handle_message of consume_queue, with next_retry_attempt and
-- should_retry. A method runs over the log of its calls of the handlers and of the broker; both are
-- parameters that return or raise. Settled has what the broker is asked for, Attempts the deliveries
-- of one message, where the broker delivers again what was put into the retry queue or put back.
-- Workers/PolicyEngine: workers/policy_engine.py. Handoff (what the engine is given), Plans (the verdict
-- that counts, the plan of the remediation), FileTypes (blocked file types), Build (the handoff decision
-- and its reading back), and the engine itself; Coherent, Malicious and FileTypeName have its
-- theorems. An error is none, since no caller tells the errors apart.
-- Workers/Remediation: jobs/contracts.py (Request: a plan as a request to a connector), workers/connector_actions.py
-- (Connector: the call, Response: the answer), workers/remediation_worker.py (Executor). The connector
-- is a parameter that answers a call with JSON, an HTTP status, or not at all.
-- Workers/Stages: Messages (from_envelope of the four requests), Process (process_policy_message,
-- process_remediation_message, process_dianna_message, process_result_sink_message) over the job service of
-- Jobs; the engine and the executors are parameters that return or raise, and may change the store.
-- Settled has what handled and failing messages leave, Fast the item that is done with its policy.
-- Delivery has the executors of deliveries (workers/delivery_worker.py): the post of a cached file to an
-- object store, and the event of the sink; Cached has what is posted.
-- Control: control_plane/service.py and repository.py, class ControlPlaneService over
-- InMemoryControlPlaneRepository. Selectors (normalize_selector, selectors_overlap; Cover has the
-- lemmas on prefixes), Models, World, Repository, Scopes (integrations, scopes, match_scope; Apart has
-- the invariant that no scopes overlap, Match what match_scope finds), Connectors (connector instances
-- and their leases), Config (config_models.py; Resolve has how policies layer). Normalized selectors
-- are lists of the codes of their characters.
-- Transfer: dsx_transfer. Models (models.py), Policy (policy.py, dsxa_file_types.py), Checkpoint
-- (checkpoint.py, class JsonCheckpointStore), ScanGate (scan_gates.py), DsxaGate (dsxa_scan_gate.py,
-- for a response that is a dict), Engine (engine.py, class TransferEngine: Calls and Log have what goes to
-- the gate and the sink, Outcomes and Steady what comes back, Resume what a second run does).
-- The gate, the sink, the audit log, the file of the checkpoints and the progress callback are
-- parameters (Env of Transfer/World) that return or raise. A theorem that needs them not to raise
-- takes IsSteady. The file of the checkpoints holds the records themselves.
--
-- Bounds: the loop of list_outbox_records_fair, which runs until the limit or the rows are exhausted,
-- takes rounds on fuel; the fuel is one more than the number of the rows and of their jobs, and every
-- round but the last takes a row or drops a job. Every other loop runs over a list. Numbers in the source are
-- unbounded, and so are they here. A difference below zero is cut at zero only where the source
-- cuts it.
--
-- The retries of a message are followed on fuel, a number of deliveries; one more than
-- retry_max_attempts is enough. The values of the header of retries are natural numbers, which is what the
-- consumer writes.
--
-- The codes of lower case, the removal of outer spaces and the digits and letters of a file name are
-- those of ASCII.
--
-- Not modelled: the snapshots of progress, latency and throughput, which are floating-point reports;
-- the timings of the flush result; submit_batch_job and the replay of batches; the Postgres
-- repositories and the RabbitMQ bus; the branch of execute_plan that runs several items at a time; the
-- connections, queues and tasks of the consumer; the service's registration of connectors, and gateway
-- applications; the scan worker, the loop of the relay and the HTTP API; the first generation of
-- the program, the connectors, the SDKs and the applications, which are I/O and interfaces.
pub mod Prelude
pub mod Jobs
pub mod Transfer
pub mod Workers
pub mod Control
