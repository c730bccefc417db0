-- ===== src/Grpc.antt =====
-- The grpc package: jobs and the worker pool's interceptor, the server and the client.
pub mod Job
pub mod Server
pub mod Client
