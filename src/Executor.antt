-- ===== src/Executor.antt =====
-- internal/executor: the executors that wrap another one. What the wrapped executor returns is a
-- parameter: none for a nil error.
pub mod Breaker
pub mod TokenBucket
mod Tests
