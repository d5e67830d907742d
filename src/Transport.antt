-- ===== src/Transport.antt =====
-- transport.go: the queue of requests that wait for a connection, and the limit of connections for a
-- host. Dialing and the connections
-- themselves are not here.
pub mod Queue
pub mod Fifo
pub mod Calls
pub mod Limit
mod Tests
