-- ===== src/Lib.antt =====
-- Verification of the core of the kaleidoscope manager: the verbatim edit of JSON documents, the
-- account client, the instruction files of agents, and the hook in their settings.
--
-- The program. `kaleidoscope` registers hooks and servers in the configuration files of other
-- programs, and takes them out again. To remove an entry without reformatting the rest of a file,
-- src/hooks.rs and src/host.rs call `excise` of src/json_span.rs. The account client under
-- src/account signs a user in, keeps a rotating refresh token in the credential store of the
-- operating system, and talks to a closed set of routes of the account service. src/instructions.rs
-- puts the manager's text into AGENTS.md and the like and takes it out again; it plans from what it
-- reads, and applies the plan with the files of src/fs_safe.rs, under a lock beside the target.
--
-- Which file models what.
--   JsonSpan/Value: `serde_json::Value` and its equality; objects keep the order of their members
--     and compare without it.
--   JsonSpan/Removal: `removal_path` of src/json_span.rs, and /Sound what its answer means.
--   JsonSpan/Scanner, JsonSpan/Enter: the methods of `Scanner`; a method takes the cursor and
--     returns it moved.
--   JsonSpan/Excise: `span_of` and `excise`.
--   Account/Error, Account/Secret, Account/Url, Account/Model: the plain data of
--     src/account/error.rs, secret.rs and model.rs, and of the crate `url`.
--   Account/Endpoint, Account/Config, Account/Payload, Account/Wire, Account/Request:
--     src/account/protocol.rs, that is its routes, its configuration, the guard on payloads, requests
--     and responses, and the constructors of requests.
--   Account/Store: `StoredCredential` of src/account/store.rs.
--   Account/Oidc, Account/Oidc/Token: src/account/oidc.rs, and /Claims what accepted claims say.
--   Account/Action: what an operation of the client reads and changes; Action/Keeps has a rule for
--     each way to build an operation that preserves a property of the world.
--   Account/Client, with /Login, /Refresh, /Session and /Identities: the operations of
--     src/account/client.rs. /Steady, /Writes, /LoginKeeps, /SessionKeeps and /IdentitiesKeeps carry
--     a property of the world through all of them, /Runs is the relation of worlds that a sequence of
--     operations connects, /Lineage is about the sessions that renew a credential, and /Polling about
--     the interval of the device login.
--   Manager/Error: src/error.rs. Manager/Host: the names of src/host.rs.
--   Manager/Files: src/fs_safe.rs; /Paths are the paths, /Os the disk and the calls on it, /Snapshots
--     reading and replacing files, /Locks the lock and the pruning of directories. /Frame, /Keeps and
--     /Reads say what these operations leave as it is, and what they read.
--   Manager/Instructions: the data of src/instructions.rs; /Blocks finds, puts in and takes out the
--     owned block of a text, /Receipts, /Install and /Removal are the two planners, from what they
--     have read, and /Apply reads for them and applies their plans. Below these stand the theorems.
--   Manager/Hooks: the entry that src/hooks.rs keeps in a settings document; /Document finds, puts in
--     and takes out entries, /Action and /Removal are the document's part of the two planners,
--     /Restore is what the removal writes.
--   Prelude: tests, options, lists and texts that all of these share.
--
-- How the code is translated. A Rust `str` is the list of its UTF-8 bytes. A `Url` is what its
-- accessors return, and two are equal if their serializations are. A UUID is its 128-bit number, the
-- nil UUID is 0. An operation of the client is a function from a world to a result and a world; a
-- world has the stored credential, whether the refresh lock is held, the requests sent, the clock,
-- and the number of calls made so far. How each call of a transport, store, lock, runtime or
-- interaction turns out is the parameter `Environment`, by the number of the call, so that every
-- interleaving of failures and delays is one environment. Its clock does not go backwards.
--
-- The disk of the manager is a list of entries under absolute paths; an operation is a function from
-- the disk to a result and the disk. `Machine` says which calls of the system fail, by the call, the
-- path and the disk, so that every pattern of failures is one machine; it has the digest of sha2 and
-- the test for UTF-8. `Parts` has the texts that the build includes and serde_json at receipts. An
-- atomic write is one step: its temporary file is gone when it returns. No other process writes while
-- an operation runs, save where the code looks again.
--
-- Parameters. `Serde`, `Json`, `UuidText` and `Oidc` stand for serde_json, uuid, url, base64 and rsa.
-- The hypotheses about them and `Parts` are that the text form of a UUID parses back to it, and that
-- the receipt of an installation reads back.
--
-- A settings document is a value of serde_json with members in their order, where `Map::remove` puts
-- the last member in the place of the removed one.
--
-- Fuel. The scanner's loops run on the length of the text and a little more (`fuel_for`), since every
-- round moves the cursor by at least one byte. JsonSpan/Scanner/Runs and JsonSpan/Enter/Runs have
-- these loops as relations without fuel. The poll loop of `login_device` takes its fuel as an
-- argument.
--
-- Panics. Where the source would panic the model goes on: `remove_block` slices before the block at an
-- offset that may lie inside a character, and compares the bytes there.
--
-- Not modelled: `account_url`, the native credential stores and locks, the
-- loopback server, the HTTP transport, how src/hooks.rs reads files, makes receipts and applies
-- plans, what it does at the start of a session, the edits of host configurations, the texts of
-- previews and summaries, the command line, and the bindings in other languages.
pub mod Prelude
pub mod JsonSpan
pub mod Account
pub mod Manager
