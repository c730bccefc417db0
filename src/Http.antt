-- ===== src/Http.antt =====
-- The http package: responses, parameters, routes, jobs and the server.
pub mod Response
pub mod Params
pub mod Routes
pub mod Job
pub mod Server
pub mod Client
pub mod Tracer
pub mod Files
