-- ===== src/Lib.antt =====
-- A model of the core of the 5G IoT edge gateway, a set of Python services, with proofs about it.
--
-- The program's parts and how they interact. Edge nodes form a cluster: the coordination service
-- keeps the membership table, detects failed nodes by heartbeats and gossip, elects a leader with a
-- lock in Redis, spreads the configuration through Redis and rolls out firmware. The scheduler takes
-- the nodes' resource reports and places inference tasks on an edge node or in the cloud. The
-- middleware stands before the HTTP services: it limits the rate of requests, keeps API keys and
-- admits requests by them, and passes them on to the services behind it. Among these the device
-- manager keeps the devices and their provisioning in PostgreSQL. Telemetry comes in over MQTT: data
-- ingestion puts each reading on a Redis stream, from which data persistence writes it to PostgreSQL
-- and ML inference scores it and raises alerts. Batch analytics runs Spark jobs over what is stored,
-- and ML training trains models on it.
-- Redis is what the parts share.
--
-- Which file models which part:
--   Prelude, Dict, Dict/Laws: Boolean tests on native numbers, lists, equality as a class, and
--     Python dicts as association lists in the order of insertion.
--   Redis: the commands of shared/shared/database/redis_client.py as a parameter, `Redis`, with the
--     documented behaviour as `RedisLaws`; Redis/InMemory shows that the laws can hold. Every request
--     has a time in microseconds, at which a key may have run out.
--   Floats: Python's floats as a parameter, with the laws of the order of floats other than NaN.
--   Coordination/... models services/coordination/coordination/...:
--     VersionVector: state/version_vector.py; Order and Merge have its proofs.
--     ClusterState: state/cluster_state.py; a method that changes the object is a function from the
--       state to the state. Proofs in Nodes and Leader.
--     Heartbeat: services/heartbeat.py, one scan of `_check_timeouts`; proofs in Verdict.
--     Gossip: services/gossip.py, one round over a sample with the fate of each ping, and the
--       handler of a message; proofs in Rounds.
--     LeaderElection: services/leader_election.py; what other clients do between the two requests of
--       an attempt is an argument. Proofs in Lease and Race.
--     ConfigSync: services/config_sync.py; proofs in Keys and Replay.
--     OtaCoordinator: services/ota_coordinator.py; what other tasks do to the cluster state at an
--       await, and how Redis ends each request, are arguments. Proofs in Health, Rollout, Endings and
--       Canary.
--     Servicer: grpc_server/coordination_servicer.py; proofs in Handlers, and over sequences of
--       events of the whole service in Membership and Failure.
--   Scheduler/... models services/scheduler/scheduler/...:
--     Task: the domain models of services/resource_monitor.py and services/scheduler_engine.py.
--     Monitor: services/resource_monitor.py; proofs in Fresh.
--     Engine: services/scheduler_engine.py and services/placement_policy.py; proofs in Best.
--     Policies: policies/latency_first.py, policies/cost_aware.py, policies/balanced.py; proofs in
--       Edge and Combined.
--     Adaptive: services/adaptive_scheduler.py; proofs in Threshold and Nodes.
--   Middleware/... models services/middleware/middleware/...:
--     RateLimiter: middleware_layers/rate_limiter.py; proofs in Quota.
--     AuthService: services/auth_service.py; proofs in ApiKeys.
--     Authentication: middleware_layers/authentication.py; proofs in KeyLife, with AuthService.
--     Proxy: routers/proxy.py.
--   Shared: shared/shared/models/telemetry.py in Telemetry, and in Outcome what a caller learns of a
--     request to a server: answered, answered but lost, or without effect.
--   Persistence/... models services/data-persistence/data_persistence/...:
--     BatchWriter: services/batch_writer.py and db/models.py.
--     Worker: workers/stream_to_postgres.py, one turn of its loop at a time, with what the servers
--       answer as an argument. Proofs in Sound, Delivery and Stuck, and with DataIngestion in Ingested.
--   DeviceManager/... models services/device-manager/device_manager/...:
--     Table: rows found and changed by their primary key. Models: db/models.py.
--     Service: services/device_service.py and the writes of repositories/device_repo.py.
--     Provisioning: services/provision_service.py, and the steps of the whole service.
--     Lifecycle: an abstract life of one device; Refines: the service implements it. Gauge and
--       Revival: what follows for the gauge and for decommissioned devices.
--     Race: two requests for provisioning whose queries interleave.
--     Listing and Statistics: the queries of repositories/device_repo.py; NewestFirst: that its ORDER BY can be. Firmware and Rollouts:
--       services/firmware_service.py. Routers: the status codes of routers/devices.py and
--       routers/provisioning.py.
--   BatchAnalytics/... models services/batch-analytics/batch_analytics/...:
--     JobRunner: services/job_runner.py and routers/jobs.py, as a schedule of accesses to one job by
--       its thread and by clients. Proofs in Cancellation and Outcome.
--   MlInference/... models services/ml-inference/ml_inference/...:
--     FeatureExtractor: services/feature_extractor.py; proofs in Windows.
--     Engine: services/inference_engine.py and the hot swap of services/model_manager.py.
--     AnomalyDetector: services/anomaly_detector.py and shared/shared/models/alert.py; proofs in
--       Alerts.
--   DataIngestion/... models services/data-ingestion/data_ingestion/...:
--     StreamMonitor: services/stream_monitor.py. Subscriber and Ingest:
--       services/mqtt_subscriber.py and services/ingestion_service.py; proofs in Delivery and Defaults.
--   MlTraining/... models services/ml-training/ml_training/...:
--     Trainer: services/trainer.py and services/experiment_tracker.py, as a schedule of steps of a
--       job's thread and of cancellations; proofs in Progress and Stopping.
--   The modules named Tests apply the theorems at concrete inputs.
--
-- Bounds and fuel. Every loop is a recursion on the list that it goes through, but for the health
-- wait of the OTA coordinator, whose fuel is the timeout: each turn sleeps for the poll interval,
-- which is at least one, so the fuel is enough, as the theorem on the wait shows. Python's integers
-- have no bound, so ℕ is used for versions, counters and sizes; times are microseconds.
--
-- A database table is the list of its rows, and requests are handled one at a time: the locks and
-- isolation levels of PostgreSQL are not modelled, nor are two requests that interleave between the
-- SELECT and the INSERT of one operation, but for two requests for provisioning (DeviceManager/Race).
--
-- Not modelled: log records and metrics other than the gauges of active devices, the transport (gRPC,
-- HTTP, protobuf, MQTT, CoAP), settings, the tasks that only sleep and call what is modelled, JWT, the
-- numerical code of the training, Spark jobs, the cloud API, the simulator and the dashboard.
pub mod Prelude
pub mod Dict
pub mod Redis
pub mod Shared
pub mod Persistence
pub mod DeviceManager
pub mod BatchAnalytics
pub mod MlInference
pub mod DataIngestion
pub mod MlTraining
pub mod Coordination
pub mod Floats
pub mod Scheduler
pub mod Middleware
