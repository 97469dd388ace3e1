-- ===== src/Providers/Throttle/Waiting.antt =====
-- src/lib/providers/core/rate-limit.ts: a slot without Redis.
