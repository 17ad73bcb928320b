-- ===== src/Lib.antt =====
-- CortexAI's gateway: what it charges, whom it lets through, what it remembers and where it turns
-- after a failure.
--
-- A request for a model passes the rate limiter (server/rate_limit.py) and the circuit breaker of
-- its provider and model (server/circuit_breaker.py). Before the model is called, the billing
-- service reserves credits of the account's plan (server/billing/metering_service.py, on the
-- tables of db/billing_repository.py); after the call it settles what was used, or releases the
-- reservation. Each process sends heartbeats for the reservations it owns, and a cycle lets those
-- without one expire (server/billing/reservation_cleanup.py). The subscriptions of the accounts follow
-- the events that Stripe sends (server/billing/webhook_service.py). The conversation of the session is
-- kept by context/conversation_manager.py. The smart routing of orchestrator/core.py calls models
-- until an answer passes: orchestrator/tier_decider.py chooses the tier of models,
-- orchestrator/model_registry.py offers the tier's candidates, orchestrator/model_selector.py orders
-- them, orchestrator/response_validator.py judges each answer, and
-- orchestrator/fallback_manager.py says what follows a failed attempt. server/work/output_policy.py
-- ends runs that write too much.
--
-- The files:
--   Prelude                  names of the libraries, Boolean tests, lists, Python strings and integers
--   Billing/Errors           the exceptions that metering raises, as values
--   Billing/Quantities       `_normalize_quantities` and `_record_quantities` of metering_service.py
--   Billing/Store            the rows of usage_counters and usage_reservations
--   Billing/Session          code in a database session, and `db_uow` of server/persistence.py;
--                            Ensures, Silent and Steps are the rules for its `do` blocks
--   Billing/Repository       the statements of db/billing_repository.py, one function for each
--   Billing/Metering         metering_service.py: Checks (the validations), Lifecycle (reserve and
--                            settle), Supplement (supplement, release, expire), History (sequences
--                            of transactions); the proofs are in Invariant, Effects, Reads,
--                            Rebalance and Keeps (the invariant), Limits and Grants (the
--                            allowance), Charges, Settlements, Enlargements
--                            and Bills (what is charged), Replays and Races (repeated requests)
--   Billing/Cleanup          server/billing/reservation_cleanup.py, with the proofs in Leases (what a
--                            heartbeat protects) and Outcomes
--   Webhooks/Store           the accounts, subscriptions and events of db/billing_repository.py, and the
--                            statements on them that the webhooks use
--   Webhooks/Work            code in a database session of the webhooks, and its unit of work
--   Webhooks/Service, Dispatch, Events, Delivery
--                            server/billing/webhook_service.py: what one event changes, by its kind,
--                            and `process_stripe_webhook`; the proofs are in Rules (what every
--                            write keeps), Ledger and Units (the events), Evolution, Upserts and
--                            Histories (the tables), Once, Deliveries and Repeats (duplicates),
--                            Failures
--   Gateway/Circuit          server/circuit_breaker.py, with the proofs in Opening
--   Gateway/RateLimit        server/rate_limit.py, with the proofs in Window and Specification
--   Gateway/Events           the deque of times that both keep
--   Context/Conversation     context/conversation_manager.py, with the proofs in Trimming
--   Routing/Types, Fallback  orchestrator/routing_types.py and fallback_manager.py, with the proofs
--                            in Decisions
--   Routing/TierDecider      orchestrator/tier_decider.py, with the proofs in Thresholds and
--                            Growth
--   Routing/Models           the models, constraints and answers of orchestrator/routing_types.py and
--                            models/unified_response.py
--   Routing/Registry         orchestrator/model_registry.py, with the proofs in Permitted and Order
--   Routing/Selector         orchestrator/model_selector.py: Precedence (a description of the
--                            order), Preferences, Ranking, Selection and Fitting (the proofs on
--                            `select`)
--   Routing/Validator        orchestrator/response_validator.py, with the proofs in Verdicts
--   Routing/Router           orchestrator/smart_router.py, with the proofs in Candidates
--   Routing/Invocation       `_invoke_candidate` of orchestrator/core.py
--   Routing/Smart            `_run_smart_attempt_loop` of orchestrator/core.py: one round and the
--                            loop; Steps and Rounds are its step relation, Run the whole function,
--                            Progress, Invariant, Tried and Answers the proofs
--   Work/OutputPolicy        server/work/output_policy.py, with the proofs in Guardrail
-- The modules Tests apply the theorems at concrete inputs.
--
-- A function keeps its name; a leading underscore is dropped. A long function is cut where it
-- branches: `reserve_usage` calls `reserve_normalized`, `reserve_locked` and `reserve_new`, the
-- functions `..._by_state` are what follows the test of a reservation's state. A transaction holds
-- row locks, so that its reads and writes are one step; only the wait for an account's lock lets
-- other transactions in, and `reserve_usage` takes what they do as the argument `others`. An
-- exception is the error of a `Result`; what was written before it stays in the session until
-- `db_uow` undoes it.
--
-- UUIDs are natural numbers; times are natural numbers of microseconds; the columns with a CHECK
-- that they are not negative are natural numbers; the one usage meter is a data type with one
-- constructor; `str.lower` is the one of ASCII letters; prices are exact numbers where the code has
-- floats. All loops are structural recursion on lists, but for the loop of the smart routing: it
-- runs on fuel, one more than the tiers behind the current one, each with all the models of the
-- registry, and the candidates at hand, which is shown to be enough.
--
-- A delivery of a webhook event is a sequence of units of work, each one step; what other deliveries
-- commit between them are the arguments `early`, `others` and `later` of `process_stripe_webhook`,
-- lists of units of work. The effective subscription is resolved by an argument that writes the
-- usage only. The objects of the events come parsed. A write that a unique index of the database
-- refuses raises `integrity_error`.
--
-- What stands outside the process when a model is called (the clock, the provider, the caller's
-- authorizer, other requests) is the record `Outside` of operations on a state of its own.
--
-- Not modelled: HTTP, the database engine, the clients of the providers and of Stripe, logging;
-- the rest of the billing services (entitlements, enforcement, credit calculation, the effective
-- subscription, the parsing of Stripe's objects), the analysis of
-- prompts (regular expressions), and Cortex Work beyond its output policy.
pub mod Prelude
pub mod Billing
pub mod Webhooks
pub mod Context
pub mod Gateway
pub mod Routing
pub mod Work
