-- ===== src/Lib.antt =====
-- A model of the host of MiniCPM5-5080Fast, an inference server: the parts of its Rust crates that
-- decide which tokens are generated, when a generation ends, and what text and which events reach
-- a client.
--
-- How the parts work together. The HTTP routes hand jobs to the scheduler
-- (rust/minicpm-scheduler/src/lib.rs), whose worker thread owns all sessions of the engine. Each turn
-- of its loop takes at most one job in and then runs one quantum: every active stream makes one step,
-- alone or in one batch step. A step gives a token, which goes through a bounded channel to the route.
-- There the detokenizer (rust/minicpm-generation/src/stream_decode.rs) turns ids into text, the stop
-- detector (rust/minicpm-generation/src/stop.rs) decides what of it may be shown and when to stop,
-- and the tool call parser (rust/minicpm-generation/src/tool_call.rs) splits it into text and calls.
-- The metrics registry (rust/minicpm-metrics/src/lib.rs) counts along.
--
-- Files and what they model:
--   Base, Words, Bytes: shared names, machine integers, and Rust's `str` as UTF-8 bytes, where a slice
--     inside a character is `none`, the panic.
--   Stop: `StopState` with `new`, `check_token`, `push_text`, `safe_len`, `finish`; Stop/Window is about
--     the search of the end of the text, Stop/Stream about a whole generation.
--   StreamDecode: `StreamDecoder` with `push` and `finish`; the decode callback is a parameter.
--   ToolCall: the types of the parser and the building blocks; ToolCall/Tag the free functions on tags,
--     ToolCall/Step the passes `step_text`, `step_function`, `step_param`, `step_cdata`, `push` and
--     `finish`. The JSON text of the arguments, which serde_json renders, is a parameter.
--   Usage, Metrics, Runtime: rust/minicpm-generation/src/usage.rs, the registry, and the plain types of
--     rust/minicpm-runtime/src/lib.rs.
--     Runtime/Native has the checks of rust/minicpm-runtime/src/native.rs around the calls of the shared
--     library for a batch group; the library is a parameter.
--   Scheduler: Types and Host are the data and what the worker calls; Gen is `step` and `feed_token`;
--     Retire is `retire`, `return_session` and `fail_intake`; Intake is `intake`; Quantum and Worker are
--     the body of `worker_loop`, its shutdown and the loop. The folders below Gen and Pool hold proofs.
--     Admission is `SchedulerHandle::admit` as interleavings of atomic operations.
--   Server: the code of rust/minicpm-server/src that all routes share and its three encoders. ArgStream is
--     `ToolArgStream` of chat.rs, Generation its `run_generation` with the flush, Anthropic the
--     `AnthropicSseEncoder` of anthropic.rs, Responses the `ResponsesSseEncoder` of responses.rs, Chat the
--     frames of `SseCtx` and the body of `non_stream_json` in chat.rs. Responses/Output is the whole
--     response. Anthropic/Whole, Chat/Same and Responses/Same are about the loop and an encoder together.
--     Anthropic/Request and Responses/Input translate requests into chat messages, on the JSON values of
--     Json; Config has `merge_config` and the ids. The events of these two routes are values of a data type, the
--     frames of Chat are JSON values; JSON
--     text, the tokenizer and the consumer of the emissions are parameters. Generation/Invariant
--     is one walk through the loop for all of its invariants. Generation/Decoded is a second one, that follows
--     the decoder along.
--   Mock: the scripted engine of rust/minicpm-runtime/src/mock.rs.
--
-- The state of the worker is a record, and each function of the source is a function on it. The engine
-- with its sessions and batch group, the channels, the cancel flags and the clock are the record `Host`,
-- a parameter: its calls may change its `World` in any way, so whatever other threads do between two
-- calls is included, and theorems hold for every host unless they name a hypothesis on it. A log in
-- the state, which the source does not have, says what was called and what was sent.
--
-- Fuel. The loop of the tool call parser runs on one more pass than there are bytes in its buffer, which
-- is proved to be enough. `worker_loop` runs at most the given number of quanta, since a server need
-- not stop. All other loops are structural.
--
-- Not modelled: the handlers of the HTTP routes around the parts above, the chat template, the tokenizer, the native library and how it is loaded,
-- the construction of the scheduler with its threads, JSON and tracing. Atomic counters are updated in
-- the order of the source, with wrap-around at 2^64.
pub mod Base
pub mod Bytes
pub mod Server
pub mod Stop
pub mod StreamDecode
pub mod ToolCall
pub mod Words
pub mod Usage
pub mod Metrics
pub mod Runtime
pub mod Scheduler
pub mod Mock
