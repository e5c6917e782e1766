-- ===== src/Lib.antt =====
-- actenon-kernel: a Python library that lets an agent's action run only with a proof (a PCCB) that an
-- issuer has signed for exactly this action, and only once.
--
-- An endpoint receives an intent and a proof. The policy engine decides about the intent, the minter
-- signs a proof, the verifier checks it at the edge, the replay store claims the proof's key, the escrow
-- consumes its single-use record, and the replay store marks the claim consumed. The protected executor
-- makes the calls from the verifier on in this order before the handler that acts, with the idempotency
-- lookup, the effect claim and the credential between, and writes the receipt or the refusal. Each part
-- refuses by raising a RefusalException with a code.
--
-- Files:
--   Prelude, Json, Dict          shared tests, numbers and lists; JSON values; Python's dict
--   Core.Refusal                 actenon/core/errors.py, and the monad of a method: a state in, and out
--                                a result (returned, refused, raised) with the state that is left
--   Core.Time                    the timestamps of actenon/models/contracts.py (format_timestamp): a
--                                time is the number of microseconds after datetime.min, and `text_leb`
--                                is the order of the texts, by which SQL compares
--   Core.JsonDepth               validate_json_depth of actenon/core/json.py
--   Sql                          the statements the stores use, over a table as a list of rows
--   Replay                       actenon/replay/base.py, actenon/replay/dbapi.py (and sqlite.py, which
--                                adds the lock): Model has the tables, Store the methods of
--                                DbApiReplayStore under their names; `observe` and `advance` are
--                                _assert_store_monotonic and _advance_mutation_counter after their
--                                reads; World runs schedules of calls by several store objects;
--                                Service is ReplayProtector of actenon/replay/service.py
--   Idempotency                  actenon/idempotency.py: the store of results and the outcome states
--   Escrow                       actenon/escrow/base.py, memory.py and sqlite.py: Memory and Sqlite
--                                have the methods of the two stores, Shows says when rows and dict hold
--                                the same records, Once runs schedules
--   Contracts                    actenon/models/contracts.py and runtime.py: the records that the policy
--                                engine and the verifier read, and their to_dict (`tenant_dict` and so
--                                on); Core.Format is format_timestamp
--   Policy                       actenon/policy/engine.py: Rules has the rules, Engine the layers and
--                                PolicyEngine.evaluate, one function for each step of it
--   Verifier                     actenon/proof/service.py: PCCBVerifier. Service has verify, one function
--                                for each group of its steps; Checks has the disclosure modes
--   Receipts, Credentials        actenon/receipts/factory.py and actenon/credentials/broker.py
--   Effects                      actenon/execution/effects.py: EffectProtector.claim_request
--   Executor                     actenon/execution/protected_executor.py: Model has the collaborators and
--                                the local variables, Body and Evidence the steps, Attempt the try
--                                block, Run the two except branches and `execute`. Edge puts an
--                                executor over the replay store; Rules, Keeps, After and Guarded say
--                                what each step keeps
--   Kernel                       actenon/core/kernel.py: Submit is submit_intent, Bindings the comparison
--                                of a sealed proof with the minted one
--   Middleware                   actenon/verifier/middleware.py: Endpoint is ProtectedEndpointMiddleware,
--                                which the kernel's execute calls
--   Posture                      actenon/security_posture.py, with __post_init__ of the executor and the
--                                default store of actenon/replay/service.py: which weaker guarantees an
--                                environment permits
--   Minter                       actenon/proof/service.py: PCCBMinter.mint; what a call gets from the
--                                factories of ids and nonces is a field
--
-- Parameters: canonicalize_bytes, SHA-256, the revocation checker, and what the protocol package
-- decides (capability_in_scope, the accepted profiles, the authority extension) are fields of a
-- record that the verifier and the minter take; the signer is a field of each of them. Python's ==
-- of two fact values is an argument of the workflow rules. The collaborators of the executor
-- (broker, escrow, stores, writers, factories of ids, handler) are functions over one environment,
-- any of which may return, refuse or raise; so are the texts of the two example domains, which may
-- raise for a parameter that is missing; the message of a refusal and the class name of another
-- exception are fields of the executor.
--
-- State and atomicity: a method is a function from the state before to its result and the state after.
-- A transaction holds the lock of the process and the write lock of the engine, so it is one step; a
-- refused transaction leaves the rows as they were. A schedule interleaves whole calls; the re-read with
-- which a method ends, after its commit, belongs to its call.
--
-- Fuel: DbApiReplayStore.inspect calls itself once after marking an overdue claim. `inspect` has two
-- rounds, which are enough for every state. The loop of validate_json_depth has as many rounds as the
-- document has values, since each round takes one value off the stack for good.
--
-- Not modelled: cryptography, key services, files, the network and SQL engines below the statements,
-- which are outside the program; the command line, servers, viewers and scanners, which are input
-- and output; and the canonical form and the transparency log, which use the parts above but are no
-- part of them; log lines and warnings. Messages and violations of errors, which no code reads, are
-- left out.
pub mod Prelude
pub mod Json
pub mod Core
pub mod Sql
pub mod Replay
pub mod Dict
pub mod Escrow
pub mod Contracts
pub mod Policy
pub mod Verifier
pub mod Credentials
pub mod Effects
pub mod Executor
pub mod Idempotency
pub mod Kernel
pub mod Middleware
pub mod Minter
pub mod Posture
pub mod Receipts
