-- ===== src/Tests.antt =====
-- Runs of the definitions, and the theorems at concrete inputs.
mod Fixtures
mod Http
mod Crudl
mod Broadcast
mod Environment
mod CircuitBreaker
mod Retry
mod Event
mod Pool
mod Log
mod HttpClient
mod Grpc
mod Redis
mod Mqtt
mod Create
mod Mysql
mod Listen
mod Library
