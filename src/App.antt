-- ===== src/App.antt =====
-- internal/app: the webhook service. Dedupe is dedupe.go, Filter is
-- filter.go, Queue is queue.go, and Spool is spool.go.
pub mod Dedupe
pub mod Filter
pub mod Queue
pub mod Spool
