-- ===== src/Http.antt =====
-- The HTTP layer, backend-go/internal/httpapi: the checks of request bodies in contracts.go, and the
-- replies and idempotent mutations of json.go.
pub mod Replies
pub mod Mutations
pub mod Contracts
