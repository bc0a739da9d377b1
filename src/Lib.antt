-- ===== src/Lib.antt =====
-- Suburban SOC: the response side of a security operations centre for small networks.
--
-- The agent (scripts/setup/ai_agent) takes alerts in, drafts responses, and executes a response once
-- a person has approved it. It blocks an address by asking the broker (scripts/hive-mind-broker),
-- which checks the request, and adds the address to an nftables set on every router of the tenant
-- over SSH. The broker also takes alerts itself, drafts blocks and has them approved. Both keep an
-- append-only approval queue, which a script compacts; the agent keeps its checkpoints and its
-- approval claims in Elasticsearch.
--
-- The files and the code that each is about:
--   Base, Base/*      lists, texts and Boolean tests that the other files share
--   Signing           `_verify` of scripts/hive-mind-broker/app.py and `verify_signature`,
--                     `_nonce_is_fresh` of scripts/setup/ai_agent/agent.py: one function `verify`
--                     with the nonce cache as its state; the two signers have definitions of their
--                     own in Agent/Isolation and Broker/Gate
--   Tenant            `safe_tenant`, and `_validate_tenant_id` of ai_agent/checkpoints.py
--   Broker/Exclusion  the exclusion list of scripts/hive-mind-broker/dispatcher.py
--   Broker/Inventory  scripts/hive-mind-broker/inventory.py
--   Broker/Router     `block_ip_on_router` of dispatcher.py with its read-only follow-up; what a
--                     connection and a command come to is a `Link`, and what was sent is a list
--   Broker/Fleet      `dispatch_block_to_all` of dispatcher.py
--   Broker/Gate, Queue, Service, Alert, Dispatch, Approve, Session
--                     app.py: the gate, the rows of the queue, what the endpoints share, the four
--                     endpoints, and any sequence of requests to them
--   Archive           compact_agent_approval_queue.py and compact_broker_approval_queue.py, the
--                     archive written entry by entry
--   Claims/Elastic    what Elasticsearch documents of the claim document's requests
--   Claims/Client     `claim_approval` and `_transition_claim` of checkpoints.py, by request
--   Claims/System     any number of approvals and operators, interleaved request by request
--   Claims/Manual     `cmd_resolve` of ai_agent/manage_stuck_claims.py
--   Agent/Retry       ai_agent/retry.py
--   Agent/Suppress    `should_suppress_technique` of checkpoints.py
--   Agent/Excluded    the exclusion list of agent.py
--   Agent/Isolation   `sign_request` and `dispatch_block_via_broker` of agent.py
--   Agent/Execution   `_execute_isolation` and `Agent.execute_approved` of agent.py
--   Agent/Intake      `Agent.run`, `act` and `check` of agent.py, and `Agent.perceive` in
--                     Agent/Intake/Perceive
--   Agent/Routes      `handle_kibana_webhook` and `approve_action` of ai_agent/agent_app.py
--   Agent/Pending     `list_pending` of ai_agent/agent_app.py and `_read_queue` of agent.py
--   Agent/Audit       `write_audit`, `_write_audit_health_marker` and `_checkpoint_or_warn` of agent.py
--   Agent/Secrets     `_resolve_approver_secret` and `_resolve_hive_mind_secret` of agent.py
--   Agent/Routing     `ntfy_topic_for` and `discord_webhook_for` of agent.py
--   Agent/Masking     `_mask_mac`, `_mask_ip` and `_mask_notify_ioc` of agent.py, and what `act` uses
--                     them for
--   Prune, Prune/*    ai_agent/compact_threat_intel.py and compact_agent_checkpoints.py: the settings
--                     and the polling of a task in Wait, the two scripts in Intel and Checkpoints
--   Slo, Slo/*        ai_agent/slo_metrics.py: the metrics by how they are read (Counts, Ages, Claims,
--                     Intel), the reader's privileges in Access, and `main` in Report
--   Weekly/*          ai_agent/weekly_ciso_report.py: the figures in Metrics, the reports that stay on
--                     disk in Reports, and the upload and the pipeline in Deliver
--   Baseline/*        scripts/setup/suricata_threshold_baseline.py: `window_max` in Window, `analyze`
--                     in Suggest
--   Attack/*          scripts/setup/build_attack_coverage.py: its tables, the pairing of techniques
--                     with tactics, the rows of the rules, and the layer of the navigator
--   Tests             concrete inputs
--
-- State is passed explicitly: an endpoint takes the broker's state and returns its reply with the
-- state after it. A sum or an `Option` stands for an exception, and the comment at a definition says
-- which. Numbers are natural numbers; where the code subtracts, the test is written as a sum, so
-- nothing wraps or is cut off. Loops are recursions on the lines, routers or attempts that they go
-- over, so no fuel is needed, but for the polling of a task: its fuel is one turn more than its
-- timeout has ticks, and since each turn waits for one tick at least, the timeout ends the loop before
-- the fuel does. Seconds are whole in the service; the scripts measure in milliseconds or
-- microseconds, and where they have floats an exact fraction is rounded, half to even.
--
-- Parameters stand for what is not code of the repository: the digest and `int` (Signing.Crypto),
-- `ipaddress` (Broker.Exclusion.Ipaddress, Agent.Masking.Address), Unicode categories, `json`, what
-- SSH links do, Elasticsearch (Claims.Elastic.Elastic, Prune.Polls, Slo.Cluster), `datetime`
-- (Weekly.Metrics.Clock), and what Slack, the model and the disk answer (Weekly.Deliver.World).
--
-- Not modelled: the language model, Kibana cases and notifications, the text of log lines and of
-- details, SSH host keys and timeouts (a timeout is one of the ways a run can end), the settings nan
-- and inf of a poll, the reading of rule files and event files, the pages and documents that are
-- rendered (the playbook viewer, the report's template, the Markdown of the coverage matrix),
-- the one-off migration of playbooks, the runner of hunts, the routes that start the weekly report,
-- what becomes of a call of `write_denial`, an exclusion list that is not UTF-8, a count of a
-- broker response that is infinite, an HTTPError without a response, margins nan and inf (a margin is
-- an exact fraction), alerts of the weekly search with null tags or a tag that is no text,
-- the search for stuck claims, and two endpoints of the broker that overlap in time.
pub mod Base
pub mod Signing
pub mod Tenant
pub mod Broker
pub mod Archive
pub mod Attack
pub mod Baseline
pub mod Claims
pub mod Prune
pub mod Slo
pub mod Weekly
pub mod Agent
pub mod Tests
