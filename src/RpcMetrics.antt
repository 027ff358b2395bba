-- ===== src/RpcMetrics.antt =====
-- rpcmetrics: counters of calls by endpoint.
pub mod Normalizer
pub mod Endpoints
pub mod Metrics
pub mod Observer
