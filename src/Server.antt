-- ===== src/Server.antt =====
-- internal/httpapi/server.go: what each handler answers, and which store operations it calls.
-- net/http, crypto/sha256, mime and encoding/json are parameters. The multiplexer has chosen the
-- handler and the path values. A reply has the status, the error code and the headers that the
-- handler sets; messages, the log and the times it measures are left out.
pub mod Store
pub mod Guards
pub mod Handlers
pub mod Tokens
pub mod Access
