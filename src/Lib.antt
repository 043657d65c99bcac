-- ===== src/Lib.antt =====
-- mantlekeep: a control plane in which every change is an intent that a door decides, records and
-- answers with a token or a refusal. A caller submits an intent to the SDK (the door). The door
-- resolves the caller's identity, asks the policy engine, writes the decision to a hash-chained
-- log, and issues an execution token for an allow alone. The engine evaluates a request against
-- documents (who may do what, and rules on parameters), against layers of configuration with
-- seals, and against rules of its own (no AI approves, nobody approves their own request). A
-- registry of artifacts keeps the versions that consumers run under a promotion policy. The
-- orchestrator runs a workflow of steps under a token, and undoes what it did when a step fails.
-- The estate resolves what a team asks for into changes, submits each to the door, collects the
-- signatures that a gate asks for, and compares what was approved with what is observed.
--
-- Which file models what (paths are under mantlekeep-control, those of Estate under mantlekeep-estate):
--   Contracts: contracts.go, policyinput.go, decision.go. Subjects, intents, decisions, tokens and
--     audit records as records; `map[string]any` is a list of keys and values of the type `Any`.
--   Grants (Union, Seal, Refusal, Additive): grants/grants.go, floors.go, merge.go. `load` is Load on parsed
--     documents, `append_layered_floors` is appendLayeredFloors.
--   Policy: internal/policy. Ladder (ladder.go), Cascade (resolve.go: `resolve`, `apply`), Scope
--     (scope.go: the resolver and its cache), Engine (the RBAC engine, its constructors and
--     grants_live.go), Floor and Floor/Quantity (floor.go), Precedence (precedence.go), Rbac
--     (rbac.go: `evaluate` is Evaluate, `evaluate_step` is EvaluateStep), Rbac/Order (order.go),
--     Failsafe (failsafe.go), Validate (validate.go), Live (dynamic.go: the watcher).
--   Audit: internal/audit/audit.go. `log` is Log, `verify` is Verify, `records` is Records.
--   Door: internal/sdk/sdk.go. `submit` is Submit, with its collaborators in the record `Ports`;
--     Evidence and Refusals are on it.
--   Registry: registry/registry.go, with Lifecycle (lifecycle.go, dependents.go), Resolve
--     (resolve.go), Promote (promote.go), Calls (a sequence of calls as data), and Governed,
--     Update, Reachable and Pins on them. A call is a function from the registry to an error or a
--     next registry.
--   Change: grants/change.go. `govern` is Govern, over a door, a policy source and a writer.
--   Orchestrator: orchestrator. Graph (dag.go: `layers` is Layers, `new_dependency_graph` and `consume`
--     are its parts), Events (events.go), Run (orchestrator.go: a level is a relation `Moves` in which a
--     step starts or settles, `Runs` is Run). Counting, Indexing, Rounds, Layering and Order are on the
--     levels; Run/Levels, Causal, Saga and Total (the count of a level's moves) on the runs.
--   Estate: Floor (floor.go, the tiers of manifest.go), Footprint (slot.go and the types of resolve.go),
--     Signatures (signature.go, approval.go), Approvals (approvals_memory.go, approvals_collect.go), with
--     Desk (opens, signatures and declines as a sequence of moves) and Sound, Released and Decline on
--     it, Manager (manager.go, transform.go: `apply_one`, `approve_citing`), with Guarded (guarded.go) and
--     Authority, Ownership (ownership.go), Drift (reconcile.go: `diff_owned`, `reconcile_from`), with
--     Report, Founded and Pass, Placement (placement.go: `place_with` is PlaceWith), with Legality and
--     Preference, Fleet (fleet.go: `resolve_fleet`), with Change (`as_change` is AsChange) and Bounds.
-- Examples applies each result with conditions to a small deployment. Prelude holds the lists,
-- maps, results and texts that the parts share.
--
-- Choices. A Go map is an association list, whose order stands for the order of one iteration.
-- Texts are sequences of characters, where Go has bytes. An error that the code returns is a value
-- of a type of errors, mostly without its prose. A loop is a recursion on the list it ranges over.
-- Two loops run on fuel: the digits of a number, on the number itself, and the levels of a
-- workflow, on the count of its steps, which each round lowers. Interleavings of calls are
-- explicit: the moves of a level, and the moves at the store of approvals, where a decline is two.
--
-- Parameters, for code that is not in the repository or has no meaning inside it: the digest of an
-- audit record and the hash of the layers (SHA-256 over JSON), the floating-point operations
-- behind quantities (`FloatOps`), the quoting of a text (%q), the identity resolver and policy
-- evaluator of the door, a product's Admit, the source and the writer of a policy change, the
-- clock, the answers of a step's runner, of a compensation and of an adapter, the share of
-- capacity with its order, strings.EqualFold and ToLower, the two regular expressions of a
-- manifest, the text of a number and of a duration and strconv.Atoi, the id of an approval, the
-- random token value, whether a store or a transaction accepts a write, and of the registry's store
-- whether it reads a key and lists its keys. Values that were written are read back as they were.
-- The event store of a run is the one in memory, whose Append does not fail; `emit` discards the
-- error of a store that does.
--
-- Not modelled: reading files and environment variables, JSON, tickers and hooks, the mutexes and
-- atomic pointers (a call is one step), the sorting of the registry's lists, and the prose of
-- errors and drifts. Of the estate, the resolution of a team's manifest, admissions and promotions
-- are left out. The door's HTTP surface, the estate's API and server, the Kafka and
-- Postgres adapters and the client libraries are outside of this library.
pub mod Prelude
pub mod Contracts
pub mod Grants
pub mod Policy
pub mod Audit
pub mod Door
pub mod Registry
pub mod Change
pub mod Estate
pub mod Orchestrator
pub mod Examples
