-- ===== src/Lib.antt =====
-- OpenDelo is a local gateway between coding agents and the services they act on. An agent's
-- request is turned into an intent, matched to one of the user's identities, narrowed to a scope,
-- assessed for its risk and decided on: allowed, denied, or put before the user. What is allowed is
-- issued as a lease, and each use of it is checked against it.
--
-- The parts, in the order in which a request meets them:
--
-- * Intent (internal/core/intent): Structured.antt holds intent.go, Catalog.antt capability.go and
--   Resolver.antt resolver.go, `resolve` is `Resolver.Resolve`; the other files hold the proofs. A
--   nil pointer that is read is `err internal`, which no other place of the resolver returns.
-- * Matcher (internal/core/matcher): `match_identity` is `Match`, and `walk_levels` its loop over
--   the levels of evidence; `select_identities` is `selectIdentities`, its sort an insertion sort.
-- * Scope (internal/core/scope): Dimensions.antt holds scope.go, `covers` is `Scope.Covers`;
--   Resolver.antt holds resolver.go, `resolve` is `Resolver.Resolve`. Covering.antt, Order.antt and
--   Convergence.antt hold the proofs.
-- * Risk (internal/core/risk): `evaluate` is `Evaluate` and `rules` its table.
-- * Decision (internal/core/decision): `decide` is `Decide`, `branches` its table, `blocked` with
--   `self_detected` the fail-closed checks, `classify_forbidden` the forbidden list.
-- * Gateway (internal/core/gateway): Availability.antt has the calls one after the other,
--   Schedules.antt the single accesses to the two flags of a `Serve` and a `Stop` that overlap, with
--   `serve_turn` and `stop_turn`.
-- * Lease (internal/core/lease, internal/store/repo/lease.go, internal/store/queries/leases.sql):
--   Rows.antt has the records and the conversions to and from a row, Statements.antt the SQL
--   statements on the table, a list of rows, Repository.antt the repository, Manager.antt the
--   operations of `Manager`. Changes.antt to Counting.antt prove what any sequence of calls does
--   to a lease, Issue.antt and Use.antt what issuing, a use and a revocation guarantee.
-- * Approval (internal/core/approval): Items.antt has the records, Manager.antt the answers of the
--   user, their checks and consequences, `settle` with what the repository returns as arguments.
-- * Trust (internal/core/trust): Memories.antt has the records, Manager.antt what is learned and what
--   of it is used, `generated` is the memory that `Generate` hands to the repository;
--   Convergence.antt has the proofs.
-- * Agent (internal/core/agentauth, internal/store/repo/{agent,device,workspace}.go): Identity.antt and
--   Rows.antt have the records and their rows, Tables.antt the statements on a table with checks and
--   unique indexes, Store.antt, Devices.antt and Agents.antt the repositories, Registration.antt,
--   Register.antt and Service.antt the operations of `Service`. Calls.antt has sequences of calls;
--   Soundness.antt, Keeping.antt and Inversion.antt carry the proofs of Invariant.antt, Evolution.antt,
--   Admission.antt, Session.antt, Refusal.antt, Binding.antt and Standing.antt.
-- * Pipeline (internal/core/pipeline) joins the parts. Calls.antt has the calls of a run and a
--   monad of runs that make them, may fail and may panic, Services.antt the services that answer,
--   Requests.antt and Inputs.antt the records. Resolving.antt and Handling.antt hold pipeline.go,
--   `handle` is `Handle` and `resolve_request` its first half; Settling.antt holds settle.go,
--   `settle_approval` is `SettleApproval`. Records.antt and Cascades.antt hold agent.go,
--   identity.go, expire.go and the end of settle.go. Resolution.antt says what the first half of
--   `handle` comes to, Protocol.antt which order of calls is promised, Runs.antt has the rules to
--   prove that a run keeps to it, Turns.antt to Endings.antt apply them to `Handle`, Settled.antt
--   and Answers.antt to `SettleApproval`, Revoked.antt, Cascading.antt and Expiring.antt to the
--   cascades; Order.antt and Safety.antt, Tracks.antt and Revocations.antt draw the conclusions.
-- * Platform (internal/platform): AppError.antt has the error codes of apperr. A Go function that
--   returns a value and an error is modelled by one into `Result`. Audit/ is the audit trail of
--   audit: Redaction.antt holds redact.go, with `redact_json_object` and `redact_metadata`, and
--   Recorder.antt recorder.go, with `record_event` for `Record` and `prepare`; Hiding.antt and
--   Flat.antt are about redacted values, Recording.antt about what is appended.
--
-- Prelude.antt has comparisons, lists, integers and texts; Examples.antt sample inputs and tests.
--
-- Conventions. A Go string type with named constants is a data type with these and `other` for
-- every other text. A time is the number of nanoseconds since the zero time, and the clock is an
-- argument; a column holds the milliseconds, for its text, and one from the year 10000 on is not
-- read. Go's `int` is an unbounded integer: the modelled code compares these numbers and adds small
-- constants. A Go map is an association list; a panic is `none` or `panic` at the place where it
-- happens, and `internal` in `Resolve` of the intents, which returns it nowhere else. Texts are
-- lists of code points; letter case, which the Unicode tables of the Go library decide, is the
-- parameter `Letters`, of which no property assumes anything. The JSON texts of a scope are the
-- parameter `Codec`, and the rows of other tables that a lease refers to the parameter `refers`; no
-- property assumes anything of these either; the checks of `json_valid` on the texts of a lease are
-- left out. The JSON texts of declarations and the matching of patterns are the parameter
-- `Intent.Catalog.Codec`, and the repositories, managers and the audit recorder behind the pipeline
-- are the parameter `Services`: functions of the calls made so far, of which no property assumes
-- anything, so that what they answer may depend on anything before. SQLite runs the statements of
-- the one writer one after the other, so concurrent callers are a list of calls; the calls of the
-- agents' service, which are several statements each, do not overlap in the model. `Paths` are Go's
-- functions on file paths, `Crypto` its SHA-256 and base64, of which one property assumes that the
-- text of 32 bytes is not empty, `Json` reads and writes JSON for the redaction, with a text as the
-- list of its bytes, and no property assumes anything of it; `Draws` is what the clock, the
-- randomness and the generator of keys return to a registration. No loop needs fuel: each runs over
-- a list.
--
-- Not modelled: details of error messages and logs, the faces (HTTP, MCP, proxy, command line), the
-- adapters and credential providers, which call outside services, the SQL engine and its I/O
-- errors, declare.go of the intents, the table of memories, the retention and the export of the
-- audit trail, and the cascade from a credential to the leases that rest on it.
pub mod Prelude
pub mod Platform
pub mod Risk
pub mod Matcher
pub mod Scope
pub mod Decision
pub mod Gateway
pub mod Lease
pub mod Approval
pub mod Trust
pub mod Intent
pub mod Agent
pub mod Pipeline
pub mod Examples
