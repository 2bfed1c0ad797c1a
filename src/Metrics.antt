-- ===== src/Metrics.antt =====
-- internal/metrics: the hourly rollup and the event processor.
pub mod Rollup
pub mod Processor
