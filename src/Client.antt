-- ===== src/Client.antt =====
-- client.go: following redirects. Cookies, timeouts and what sends a request are not here.
pub mod Policy
pub mod Redirect
pub mod Domains
pub mod Hops
mod Tests
