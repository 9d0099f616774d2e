-- ===== src/Cron/Tests.antt =====
-- Recurring jobs at concrete times.
use job_manager_quorum.Common.{String-key}
