-- ===== src/Observability/Context.antt =====
-- src/observability/context.ts: the correlation id that a job is stamped with.
use queue_worker_kit.Prelude.{Text, Option, or_else}

-- `storage.getStore()?.correlationId` and `randomUUID()` are what the host gives at this call.
unfoldable pub resolve_correlation_id : Option Text → Option Text → Text → Text
resolve_correlation_id explicit ambient fresh = or_else explicit (or_else ambient fresh)
