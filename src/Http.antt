-- ===== src/Http.antt =====
-- controlplane/bounded_http_server.py and controlplane/http_connection_pool.py.
pub mod Server
pub mod Pool
