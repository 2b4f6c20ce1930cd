-- ===== src/LocalGrpc.antt =====
-- client/localgrpc/conn.go: the connection that calls registered gRPC services inside the process.
pub mod Message
pub mod Registry
pub mod Invoke
pub mod Stream
mod Tests
