-- ===== src/Server.antt =====
-- src/memgw/server: who calls (`Auth`), the handlers of the /v1 routes (`Routes`) and what the app puts
-- around them (`App`).
pub mod Auth
pub mod Credentials
pub mod Routes
pub mod Callers
pub mod App
pub mod Audit
