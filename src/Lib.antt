-- ===== src/Lib.antt =====
-- A model of the backend in src/benji_api: the durable job queues by which the agent writes to
-- users on its own account, the groups that users share, the apps that are generated for them, and
-- the agent's loop of tool calls.
--
-- The program is a FastAPI service and three workers over one PostgreSQL database. A service call
-- runs in a transaction on the tables; the workers poll the tables for rows that are due. The
-- tables are modelled as lists of records, a call as a function from the tables, the time and its
-- arguments to its result and the tables, and the interleaving of workers as a list of calls.
--
-- Files and the code they are about:
--   Prelude          tests, lists, tables (`find?`, `update`, `delete`), rows with distinct keys,
--                    choice of a row by ORDER BY, texts as Python has them, and JSON values
--   Jobs/Queue       what `_claim_event`, `_claim_task` and `_claim_follow_up` have in common:
--                    the row that is due first, WHERE ... FOR UPDATE SKIP LOCKED, and its lease
--   Jobs/Events      src/benji_api/services/user_events.py: the outbox of events
--   Jobs/Events/Targets, Jobs/Events/Attempts, Jobs/Events/Dispatch
--                    the same file: `dispatch_user_event`, from the conversation that an event is
--                    for (with src/benji_api/services/channels.py and users.py) to its last resort
--   Jobs/Events/Turns
--                    the same file: the messages that it writes for an app when the agent cannot
--   Jobs/Schedules   src/benji_api/services/schedules.py: scheduled tasks, the next run of a
--                    recurring task (Recurring), and the dispatch of a due task (Dispatch)
--   Jobs/FollowUps   src/benji_api/services/agent_followups.py: the agent's follow-ups, and their
--                    dispatch (Sending)
--   Groups/Records   the rows of src/benji_api/models that groups are made of, and exceptions
--   Groups/Ownership, Groups/Access
--                    src/benji_api/services/groups.py: the owner of a group and the grants of its
--                    generated apps
--   Groups/Web       the same file: groups on the web, invites, joining and leaving
--   Groups/Members, Groups/Channel, Groups/Arrivals
--                    the same file: groups on the Linq channel, from the payloads it sends
--   Apps/Access      src/benji_api/services/generated_apps_v2.py: who may use a generated app, by
--                    account, by session, or by a ticket; Apps/Records has what its parts share
--   Apps/Builds      the same file: the queue of builds, which workers claim (Claiming) and report
--                    as failed (Failing) or done (Completing, with Telemetry), and to which
--                    revisions are added (Queueing); the revision that runs (Promoting, with Gates
--                    and Seeding) and the way back (Rollback)
--   Apps/Manifest, Apps/Entities
--                    the same file, and src/benji_api/generated_app_contract.py: the schema of the
--                    data of an app, and whether a record fits it
--   Apps/Data        the same file: the records of an app, written under idempotency keys (Writing)
--   Agents/Output    src/benji_api/agents/conversation_output.py: the parser of the model's answer
--   Agents/Runner    src/benji_api/agents/runner.py: the loop of model turns and tool calls
--   Agents/Bubbles   src/benji_api/agents/text_style.py: the bubbles that a turn is sent in
-- Functions have the names of the source, less a leading underscore. A reach-out goes from
-- Jobs/Schedules through `enqueue_user_event` of Jobs/Events; a removed owner goes from
-- Groups/Channel through Groups/Ownership to Groups/Access, whose grants Apps/Access reads; a failed
-- or finished build goes from Apps/Builds through `enqueue_user_event` of Jobs/Events, whose dispatch
-- tells the user of it.
--
-- Times are microseconds in UTC, ids are numbers, and the key of a new row is an argument or the
-- next unused number. `skip_locked` passes over rows that other transactions hold: which ones is
-- an argument, any function. Each call is one step, as its transaction is; races inside of one
-- call, such as two joins that read the same invite, are not modelled. The loop of
-- `_next_recurring_run` is on fuel: a round adds at least a day, and the fuel is one more than the
-- time that is to be passed. The loop of `AgentRunner.run` counts its own rounds. The loop of
-- `claim_next_build` is on fuel: a round that goes on settles one open job, and the fuel is one more
-- than the jobs.
--
-- Time zones, SHA-256, `normalize_user_identifier`, `datetime.fromisoformat`, the `re` module, the
-- printing of ids, the agent's turn and its run for an event, the delivery of replies, the financial
-- sync, the deletion of an account, the session of the model's provider, the registry of tools,
-- random tokens, the pattern of a date, the `json` module and Python's conversions are parameters:
-- an argument or a record of functions (`Zone`, `Directory`, `ChannelWorld`, `Worker`,
-- `Environment`, `Runtime`, `Encoding`, `Python`, `Regex`, `Floats`) that may be anything, but for
-- hypotheses with a name: `ReadsBack`, where a stored response is read again, and in the dispatch of
-- events `Spares` (the agent's run and the delivery leave the event's own row alone) and
-- `KeepsMessages` (a delivery leaves the messages alone). In the groups `get_primary_user_handle` is
-- such a function too; Jobs/Events/Targets models it.
--
-- Not modelled: the calls that only read or that only write texts for prompts, typing indicators,
-- columns that no modelled call reads, of the generated apps their creation, the revisions that the
-- agent asks for, reminders and composable apps, and the other components (the agent's turns and its
-- tools, memory, finance, the app builder, accounts, the HTTP API and the clients of outside
-- services).
pub mod Apps
pub mod Agents
pub mod Prelude
pub mod Jobs
pub mod Groups
