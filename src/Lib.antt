-- ===== src/Lib.antt =====
-- OCG is a gateway that connects chat channels with an agent, which talks to language models and runs
-- tools. This library models the parts of it that decide: which provider is asked, which job runs
-- when, which event is handled and which hooks it calls, and what is kept of a conversation.
--
-- Base holds what all parts share: Boolean tests, lists, maps, signed integers with the wrap-around of
-- int64, texts as lists of their bytes, and what encoding/json decodes.
--
-- Health models the health manager of pkg/llmhealth/health.go. `Manager` is the Go struct; a method
-- that can wait for ever on a channel or panic gives an `Outcome`. The events' reason is left out, a
-- text that nothing reads, and so is LoadConfigFromEnv. What a provider answers is an argument.
-- Health/Counting is about its counters, Health/Fallback, Failover and Manual about the change of the
-- primary, Health/Lifecycle about calls one after the other.
--
-- Cron models the job scheduler of cron/cron.go. Cron.antt has its data. Cron/Fields is parseField,
-- Cron/Expression is parseCronExpression, Cron/Next is CalculateNextRun, Cron/Store is JobStore with
-- its two files, Cron/Execute is executeJob in the parts its locks make of it, and Cron/Handler is
-- CronHandler with `execute_job` for a run that nothing disturbs. Instants are milliseconds, as the
-- whole of the clock; locations, the parsing of texts of time, callbacks, fresh ids and the
-- success of a write are arguments. Loops with a known number of rounds recurse on it. The loop of the
-- schedule `every` has fuel for each millisecond up to now. The search for a month takes its fuel as an
-- argument, since it need not end; twelve rounds are enough where a listed month can be reached.
-- Cron/Create is CreateJobFromMap.
--
-- ToolLoop models the detector of loops of tool calls in agent/tool_loop_detection.go, Webhook the
-- limiter of failed authentications, Authenticate and the rules for agents and sessions in
-- gateway/webhook.go. Each method of the detector and the limiter runs under a lock and is one function
-- of the state and the instant of its call.
--
-- Hooks models the registry of pkg/hooks/hooks.go: a hook is a pointer, the heap says what is behind it.
-- Events models the table of events of storage/storage.go with the queries that order and claim them,
-- Pulse the heartbeat of agent/pulse.go that takes events out of it and calls hooks, the model and the
-- broadcast. What database/sql makes of a NULL that is read into a string is a parameter of Events.
--
-- Compaction models maybeCompact and buildSummary of agent/agent_compact.go over the tables of messages,
-- archived messages and sessions in storage/storage.go. Which statements succeed is an argument, and so
-- are the estimate of tokens and the threshold. Compaction/Reported says what a compaction comes to,
-- Compaction/Kept and Compaction/Lost which messages are left.
--
-- Thinking models agent/thinking.go, with the places of strings.Index from Base/Search; the loop over
-- the blocks has fuel for each byte, and each round takes out fifteen bytes or is the last. Edit
-- models the tool of tools/edit.go over a map of files; the count of places has fuel for each byte too.
-- Channels models the adapter and registry of gateway/channels/channel_adapter.go, with the
-- channels themselves as what they answer. Limits models the limits of requests of storage/storage.go,
-- and Tasks its user tasks with their subtasks.
--
-- Not modelled: the HTTP and websocket servers, the clients of chat services and language models, the
-- other tables of the storage, vector search, the other tools, processes, generated code and start-up.
pub mod Base
pub mod Health
pub mod Cron
pub mod ToolLoop
pub mod Webhook
pub mod Hooks
pub mod Events
pub mod Pulse
pub mod Compaction
pub mod Thinking
pub mod Edit
pub mod Channels
pub mod Limits
pub mod Tasks
