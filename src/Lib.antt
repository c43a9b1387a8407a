-- ===== src/Lib.antt =====
-- Oath: a package manager for JavaScript that assesses packages, runs them in a sandbox, and keeps
-- logs that can be audited. This library models the parts of the Rust workspace (crates/) that decide
-- whether something is accepted, and states what they guarantee.
--
-- The parts and their files
--   crates/oath-registry/src/lib.rs, the Merkle log of the registry: Registry/Merkle has
--     `merkle_root`, inclusion proofs and `verify_merkle_inclusion`; Registry/Merkle/Consistency has
--     the compact consistency proofs and `verify_merkle_consistency`. The files under them hold the
--     proofs: Tree and Split the shape of the tree, Soundness and Inclusion the verifier of
--     inclusion, Ranges, Cover, Frontier and Complete the verifier of consistency.
--   crates/oath-registry/src/control_plane.rs, the tables of the registry and the transactions on them:
--     Registry/Control, with the rows in Registry/Control/Rows. The files under it: Effects what a
--     transaction leaves, History and Kept what none changes, Tags and Live where tags point, Origin, Release and Released what a version goes
--     back to, Decisions and Approval the decision on a stage; Limits has the rate limits, Invitations the
--     invitations and memberships.
--   crates/oath-registry/src/postgres_api.rs, the handlers that change what is published:
--     Registry/Api. Registry/Api/World runs them in any order, with `decide` split at its two
--     transactions and `revoke_version` at its reading of the other versions: what was read may be
--     used after other requests. Under it Kept has what no request changes, Consistent where versions
--     come from, Tagged where tags point, Decided and Published the decision on a stage.
--     Registry/Events has the audit log and the delivery of the outbox to it.
--   crates/oath-resolve/src/lockfile.rs and graph.rs: Resolve/Lockfile, the lockfile of a graph and
--     the graph of a lockfile, and Resolve/Names, the names in keys and URLs.
--   crates/oath-transparency/src/lib.rs, the log of installations on a user's machine: Transparency
--     has the hash chain (`log`, `read_all`, `verify_chain`), Transparency/Checkpoint the checkpoint
--     and its Merkle root, which is another one than the registry's.
--   crates/oath-analyze/src/score.rs, the safety score of an analysis report: Analyze/Report has the
--     report's types, Analyze/Score and Analyze/Score/Context the score; Steps, Penalty and Trust the
--     proofs.
--   crates/oath-core/src/policy.rs, permissions.rs and integrity.rs: Core/Policy (layers of a
--     policy and its tests), Core/Permissions (what a package declares, its summary and risk) and
--     Core/Integrity (base64).
--   crates/oath-sandbox/src/policy.rs: Sandbox/Policy, the permissions of a run and the plan that the
--     backends enforce.
--   crates/oath-cli/src/approvals.rs: Cli/Approvals, the store of what a user approved to run.
--   crates/oath-fetch/src/resolve.rs: Fetch/Resolve, the version that a specifier names.
--   crates/oath-fetch/src/tarball.rs: Fetch/Integrity (metadata of a download) and Fetch/Tarball
--     (extraction to a directory).
-- The parts meet by values: a tarball is checked against its metadata and then extracted, the
-- extracted package is analysed to a report, the report is scored, and the score and the policy decide;
-- what was installed goes to the transparency log. Prelude holds what the parts share: Boolean tests,
-- lists and texts over native numbers, signed integers, results, tables of rows; Digest states what a
-- collision is.
--
-- How the code is modelled
--   A function keeps its name and becomes a function by clauses, or one on values where it updates a
--   variable; a loop is recursion on the list it walks. Errors are values of a type with one
--   constructor for each message. A file is its text, and a directory the list of its files.
--   Texts are lists of bytes, and in Fetch/Integrity of characters. Machine integers are native
--   numbers: additions that the source checks are checked, the 16-bit products of the score wrap as in a release build, and other sums cannot
--   leave their range at the sizes that memory allows.
--   A table of the database is the list of its rows in the order of insertion, a statement a function
--   on such lists, with the constraints of the migrations as errors. A transaction gives new tables
--   or an error, and an error leaves the old ones; transactions run one after another but for
--   two that read what they do not lock: `decide` reads its stage in a transaction of its own, and
--   a revocation picks the version to roll back to from rows as they were at some earlier commit.
--   A column that holds JSON is its text, and the clock is an argument. A map elsewhere is the list
--   of its entries in the order in which it is walked.
--   The semver crate is a record of parsers, of `satisfies` and of the order of versions.
--   SHA-256 and the other digests are parameters. A theorem that needs them to be free of collisions
--   says instead that a collision exists (`Collision`), so it holds of every function.
--   serde_json is the record `Json` of functions and their round trip; Transparency/Sample fills it.
--   TOML, gzip, tar, the home directory and what the operating system refuses or cuts short are
--   parameters too.
--
-- Fuel
--   `split_loop`, `compact_loop` and `reconstruct` walk with fuel, the last with the fuel of the
--   source; `merkle_loop` has one unit for each hash, and a round leaves fewer hashes than it takes.
--   That the fuel is enough is part of the theorems: a proof is made and accepted for every leaf and
--   every prefix.
--
-- Not modelled
--   Network, the routes and metrics of the registry, its queries that only list rows, tokens and
--   billing, and its objects; what a handler makes of a tarball is a parameter.
--   The rest of the command line, the scanner of JavaScript (its parser and its regular expressions
--   are third-party), the backends of the sandbox (system calls), links and the store on disk, the
--   resolver, other lockfiles, workspaces, signed contracts.
pub mod Prelude
pub mod Analyze
pub mod Cli
pub mod Core
pub mod Sandbox
pub mod Digest
pub mod Fetch
pub mod Registry
pub mod Resolve
pub mod Transparency
