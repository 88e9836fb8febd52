-- ===== src/Lib.antt =====
-- The daemon of daemon/crates: a proxy between an agent (the client) and a tool server (the child)
-- that speaks JSON-RPC on lines. For a tool call that the policy sends
-- through the ledger it asks for a lease and stores a signed record in a local database before it
-- forwards the line; it stores the end of the call there before it passes the answer on, and a
-- background loop sends the records to a remote ledger.
--
-- The parts, the files that model them, and the code that they follow:
-- - Base: Boolean tests, results, lists, association lists, texts and signed integers.
-- - External: what lies outside the repository, as parameters: Json for serde_json (with the laws
--   that the code relies on), Crypto for the hash, signature, cipher and UUID crates (no laws), Http
--   for the replies of reqwest. A clock, random bytes, the failures of SQLite and of writes are
--   fields of the records named ...Env, one for each operation.
-- - Core: accountability-core. Policy (policy.rs: check_file_access, check_network_access), JsonRpc
--   (jsonrpc.rs: parse, extract_tool_call), Audit (audit.rs), Ports (ports/*.rs, a trait is a
--   record of its methods over a world), Session (application/proxy.rs: on_tool_call).
-- - Sandbox: accountability-sandbox. Linux (landlock.rs, seccomp.rs), Platform
--   (default_enforcer of lib.rs), Profile (the profile text of macos.rs), MacOs (the rest of
--   macos.rs over a file system).
-- - Ledger: accountability-proxy/src/ledger_client.rs. Database (the two tables and each SQL
--   statement as a function on their rows), Client (LedgerClient, new), Lease (has_nonce,
--   ensure_lease), Event (insert_local_event), Receipt (verify_and_store_receipt), Sync
--   (sync_queue). A method takes the client and returns it with its result; Outcome tells an error
--   value from a panic and from process::exit.
-- - Proxy: accountability-proxy/src/stdio_proxy.rs. Decision (is_irreversible), Request (has_tool_call,
--   req_id_str, tool_name_str, stable_nonce), State (what the tasks share), Client (a line of
--   parent_to_child), Server (a line of child_to_parent), Relay (the steps of the whole: a line of
--   either side, a synchronisation, a crash inside a round, a restart over the same database),
--   Actions (the two loops and sync_queue a shared access at a time), Tasks (these actions
--   interleaved in any order, with the background synchronisation and the one at the end at once,
--   crashes at any point and new starts over the same database).
-- - Cli: accountability-cli/src/main.rs. The policy that main loads, the command that it starts, and
--   main itself (Main), in which clap's record, serde, the spawn and the run of the relay are given.
-- - Tests: a concrete JSON library, signature scheme and file system, and runs over them.
--
-- How they interact: Relay steps call Client and Server, these call the methods of Ledger on the
-- client that the shared state holds, and Decision and Request on the parsed line. In Relay a step
-- is a whole round, or a round cut off by a crash after what it stored. In Tasks a step is one
-- access of one task to what the tasks share: the lock of the pending calls, a method of the ledger
-- client that takes the lock of the database, or a write; sync_queue takes that lock twice, so that
-- other steps come between its SELECT and its transaction. What a task keeps in local variables
-- stands in its ClientTask or ServerTask.
--
-- Bounds and fuel: client_actions and server_actions run a task for a number of actions; six and
-- three are enough for one round. No other definition runs on fuel. Loops are recursions on lists;
-- sync_rounds counts the rounds of the loop at the end of relay_with_intercept, of which there are
-- ten (final_rounds). An i64 timestamp becomes a u64 with the wrap-around written out.
--
-- Not modelled: the reading of the arguments of accountability-cli, the lines on stderr, the
-- waiting in async code, a write to the child that succeeds in part, and the service and scripts
-- in other languages.
pub mod Base
pub mod External
pub mod Core
pub mod Sandbox
pub mod Ledger
pub mod Proxy
pub mod Cli
pub mod Tests
