-- ===== src/Lib.antt =====
-- A model of MiniAgentOS, a runtime that boots into a prompt for goals and carries them out by
-- fetching pages, calling a model and posting results under a policy. The program is the Rust crate
-- in runtime/src; it keeps its state in statics and runs on one thread.
--
-- The parts and how they interact:
--   A line of the console is a task in JSON or a goal in words. runtime/src/agent/goal.rs compiles
--   a goal by its phrases, or has the model interpret it, and starts the task that it has become.
--   runtime/src/agent/memory.rs keeps bounded notes on what was said and found, for the prompts of
--   a conversation. runtime/src/agent/task.rs reads a task, stores its policy and starts the fetch
--   of its source. runtime/src/agent/skill.rs takes the end of each transfer as one step: it asks
--   runtime/src/agent/policy.rs before each call, starts the next transfer by
--   `fetch_start_agent_url`, and ends with one terminal event. runtime/src/agent/model.rs builds
--   the bodies and the local summary. runtime/src/agent/session.rs keeps the history and the keyed
--   values of a conversation. runtime/src/main.rs reads the HTTP responses of a transfer as the
--   network brings them, and what their headers tell: status, length, chunks, date and
--   redirection. It finds addresses by the messages of the domain name system and keeps them in a
--   cache. runtime/src/net.rs computes the checksums of the packets. All of them read and write
--   JSON, UTF-8, decimals and URLs with the byte functions of runtime/src/main.rs and
--   runtime/src/agent/mod.rs.
--
-- The files:
--   Base            tests on numbers, lists and options, shared by all files
--   Ascii           character classes and prefixes (`is_space`, `starts_with`, `hex_nibble`, ..)
--   Buffer          slices with a cursor (`append_bytes`, `copy_bytes`); Buffer.Laws
--   Utf8            `utf8_seq_len_at`, `utf8_safe_prefix_len`, `copy_utf8_prefix`,
--                   `append_utf8_codepoint`; Utf8.Scalar is the standard that they are held against
--   Decimal         `parse_u64`, `append_u64_dec`, `u64_to_dec`
--   Json            `json_find_key`, `json_extract_string`, `json_extract_u64`,
--                   `json_extract_bool`; Json.Escape has the two writers, Json.Array
--                   `json_string_array_contains`
--   Bridge          the paths and bodies of the requests to the host bridge
--   Net.Ipv4        `parse_ipv4_bytes`, `parse_ipv4_octets`, `is_private_ipv4`; Net.Ipv4.Private has
--                   the blocks of private addresses
--   Net.Url         `parse_agent_url`
--   Net.Checksum    `checksum16_be`, `sum_be16_words` and `checksum16_tcp` of runtime/src/net.rs;
--                   Net.Checksum.Receiver is the standard that they are held against
--   Net.Dns         `dns_build_query`, `dns_skip_name`, `dns_parse_response`; Net.Dns.Cache has
--                   `dns_cache_lookup` and `dns_cache_store`
--   Net.Http        `http_feed` and `http_reset`; Net.Http.Headers has `http_parse_headers`,
--                   `capture_redirect` and `parse_url`; Net.Http.Steps reads byte by byte
--   Agent           the statics AGENT_* and FETCH_* as a record, `agent_reset`, `agent_set_result`
--   Agent.Policy    `agent_policy_check` and the stored profiles
--   Agent.Summary   `summarize_agent_response`, `build_agent_result_body`,
--                   `build_model_request_body`
--   Agent.Skill     the handlers of skill.rs; Agent.Skill.Done is `handle_agent_fetch_done`
--   Agent.Task      the handlers of task.rs
--   Session         the handlers of session.rs
--   Goal            the words of a goal (`contains_ascii_phrase`, `extract_urls`,
--                   `detect_goal_max_items`); Goal.Compile is `compile_goal_locally`, Goal.Interpret
--                   the request to the model and its answer, Goal.Line `handle_goal_line`
--   Memory          the working memory of memory.rs: `set_slot` and the statics M7_*; Memory.Compact
--                   has the notes and the compaction, Memory.Text the excerpts, Memory.Prompt the
--                   sections of a prompt, Memory.Report the JSON builders
--   Heap            the allocator of runtime/src/allocator.rs; Heap.Mask has what `align_up` masks
--   Mem             `memcpy`, `memmove`, `memset` and `memcmp` of runtime/src/mem.rs
--   Date            `date_to_epoch`, `is_leap` and `days_before_month` of runtime/src/main.rs;
--                   Date.Http has `parse_http_date`
--   Tests           runs, and an instance of each result that has hypotheses
--
-- How code becomes definitions:
--   A slice is the list of its bytes, an array with its length the list of the bytes in front of
--   the length, and an index into a slice the list from the index on. A byte is a natural number;
--   where a function needs it to be below 256, the theorem says so. A number of w bits has its
--   saturation or its wrap-around written out. A handler takes the record of the statics and
--   returns it; its traces, its console output, its requests and the reset of TLS are the field
--   `effects`, latest first. An answer `Option` is `Option`; an answer `bool` of a handler that
--   then does nothing is `none`.
--
-- Bounds and fuel:
--   The loops are structural on the list that they read, but for a few. `safe_prefix_from`,
--   `json_escape_loop`, `count_from`, `urls_from` and `feed_loop` have one round for each byte of
--   the input, which is enough because a round takes at least one byte; `skip_name_loop` has room
--   for 128 labels, behind which the source gives up; `fold_carry` has two rounds, which is enough
--   because the first leaves less than 2^17 and the second less than 2^16; `digits_into` has the
--   20 places of the array that the source fills, which is enough for 2^64 - 1. The sizes of the
--   arrays (16, 32, 96, 128, 256, 768, 1536, 2048, 4096, 8192, 16384, 65536) are those of the
--   source.
--
-- What is not modelled:
--   The start and the timeouts of a transfer (`fetch_start_ex` and what it calls), the texts of
--   runtime/src/openai.rs, the OpenAI part of model.rs stand behind the records `Services` of
--   Agent.Skill and `GoalServices` of Goal.Interpret, over which the theorems hold whatever they
--   answer; `with_goals` puts the reader of goals in its place in the task machine. The
--   conversation loop, the network stack but for its checksums, and TLS have no model yet, and of
--   the reader of responses the UDP copies and console dumps are left out; `agent_reset` therefore
--   leaves out the state of the conversation loop, and a turn of the session the note that it
--   makes in the memory store. Registers, interrupts, boot code, mbedtls and the Python tools are
--   outside: they are devices, third-party code, or programs that only test the runtime.
pub mod Base
pub mod Agent
pub mod Ascii
pub mod Buffer
pub mod Date
pub mod Decimal
pub mod Goal
pub mod Heap
pub mod Json
pub mod Mem
pub mod Memory
pub mod Bridge
pub mod Net
pub mod Session
pub mod Utf8
mod Tests
