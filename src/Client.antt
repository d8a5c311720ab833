-- ===== src/Client.antt =====
-- src/memgw/client.py: `Memory`, embedded in a process or in front of a gateway. `Remote` has the
-- requests and the errors that come back, `Embedded` the verbs in embedded mode.
pub mod Remote
pub mod Embedded
