-- ===== src/Lib.antt =====
-- PayShield scores payments for fraud. A request is scored by a first layer of statistical rules and
-- a graph model, a fusion engine makes the final decision, and each decision is written to a
-- tamper-evident audit log; Redis is reached through a circuit breaker. This library models the parts
-- that decide and that keep state, and proves what each promises.
--
-- - Prelude: shared names, lists and Boolean tests. Prelude.Float gives Python's floats as a type with
--   the operations used and the laws they rest on (finite values, and rounding that keeps the order);
--   Prelude.Float.Fixed shows that the laws can hold.
-- - Client: store/redis_client.py. What a call gives: `AsyncRedisClient` turns an absent Redis into an
--   empty answer, so that its callers go on.
-- - Audit: store/audit_log.py. `append`, `verify_chain`, `read_all`, `get_transaction` and the queue
--   of the background writer are functions of the same names, on a directory of files of lines.
-- - Layer1: engine/statistical_filter.py. `velocity_filter`, `geo_filter` and `benford_filter` are the
--   `evaluate` methods of the three filters, `compose` and `evaluate` the gate and the whole layer.
-- - Ensemble: engine/ensemble.py. `fuse` is `EnsembleFusionEngine.fuse`, on the result of `evaluate`.
-- - Breaker: store/connection_pool.py. `call` and `update_fallback_cache` are the methods of
--   `CircuitBreaker`, `enter` and `attempt` their parts before and after the `await`; the breaker's
--   life is a relation of steps of calls that overlap.
-- - ReturnRisk: return_risk/rules_engine.py, return_risk/scorer.py, return_risk/feature_engine.py and
--   api/routes/return_risk.py. `evaluate` and `score` are the methods of those names, with `eval` and
--   the trained model as parameters; `extract_features` and `update_user_profile` run on the keys of
--   Redis, where any call may be refused or raise; `score_return_risk`, `explain_return_risk` and
--   `update_return_status` are the routes.
-- - Rebuttal: chargeback/rebuttal_builder.py, with the completeness of
--   chargeback/evidence_collector.py, chargeback/signatures.py and api/routes/chargeback_webhook.py.
--   `build_rebuttal` keeps the response, the times, the urgency, the confidence and whether the payload
--   contests; `process_chargeback_event` runs on the keys of Redis, where any call may be refused or
--   raise.
-- - Auth: api/auth.py, and `get_current_user` of api/rbac.py. The methods of `AuthManager` for API
--   keys and tokens.
-- - Experiments: ml/ab_testing.py. The methods of `ABTestFramework`, and its lives as a data type.
-- - Limiter: api/security.py. The methods of `RateLimiter`, on the local store.
-- - Score: api/routes/score.py. `score_transaction` and `batch_score` are the routes, with the
--   features of `_derive_features`, the layers above, the cache of responses and the audit queue.
-- - Agents: agents/base.py, agents/message.py, agents/worker.py, agents/profile_agent.py,
--   agents/human_review_agent.py and agents/state.py. The run loop is a step relation; `route`,
--   `tick`, `update_profile`, `handle_feedback`, and the stored states of `OrchestratorState`.
-- - Registry: ml/registry.py. `next_version`, `register`, `promote`, `rollback` and the served models.
-- - Graph: engine/graph_builder.py. `build_from_live_transaction` and three features of
--   `FraudGraphFeatureExtractor`, on networkx as an interface, which Graph.Listed meets.
-- - Baselines: store/baselines.py. `update_stats` is `WelfordStats.update`; `update_baseline`,
--   `compute_deviation` and `extract` are the methods of those names.
-- - Features: store/feature_registry.py. `register_definition`, `validate_value` and `compute_psi` are
--   the methods of `FeatureRegistry`.
--
-- Only the search of Graph has fuel, one unit for each node, which is proved enough; all other
-- recursion is on lists and trees. Bounds of the source (entries of a file, the
-- queue, the cache, thresholds) are fields of a configuration and are arbitrary.
--
-- Not modelled: the regular expressions, SHA-256, the great-circle formula and the fitted models,
-- which are parameters; latencies and log messages; times to live in Redis; the other HTTP routes, the
-- graph store and its model, most of the agents, training and data generation, and the dashboard.
pub mod Prelude
pub mod Client
pub mod Audit
pub mod Layer1
pub mod Ensemble
pub mod Breaker
pub mod ReturnRisk
pub mod Rebuttal
pub mod Auth
pub mod Experiments
pub mod Limiter
pub mod Score
pub mod Agents
pub mod Registry
pub mod Graph
pub mod Baselines
pub mod Features
