-- ===== src/Lib.antt =====
-- A model of GoM, a library of building blocks for Go services (github.com/hauxe/gom).
--
-- The parts and the files that model them. A Go function `SetRoute` is `set_route` here, a struct is
-- a record with its fields, and a method gets its receiver as an argument.
--   Base.antt          errors and the loop over functional options that all packages share
--                      (Options), maps with string keys (Maps), lists, tests, integers (Int: the
--                      wrap-around of int64, %d), strings and library/common.go (Text)
--   Reflect.antt       Go values as package reflect shows them: kinds, struct fields, tags
--   Http.antt          http/: responses and errors (Response: handler.go, error.go, constant.go),
--                      ParseParameters (Params: handler.go), routes and their handlers (Routes:
--                      handler.go, server.go), jobs and the worker pool middleware (Job: job.go,
--                      middleware_workerpool.go), the server with its options, Start and Stop
--                      (Server: server.go), which starts the pools of Pool.antt, and the client (Client:
--                      client.go), which starts a span with Trace.antt, the tracer middleware (Tracer:
--                      middleware_tracer.go) and the file system (Files: filesystem_handler.go)
--   Pool.antt          pool/worker.go: what one goroutine sees of a Worker (Worker), and the workers'
--                      goroutines with the callers of QueueJob as a step relation (Run)
--   Crudl.antt         crudl/: the scan of a struct (Scan: model.go), Register and the SQL texts
--                      (Register: register.go, validator.go), the calls of the database (Query:
--                      model.go) and the HTTP handlers (Handler: handler.go), which parse with
--                      Http.Params and answer with Http.Response; Serve puts the registered routes
--                      on the server of Http.Server
--   Broadcast.antt     broadcast/broadcaster.go, channels linked into a list as a heap
--   Environment.antt   environment/parse.go: the typed readers, and Parse over reflected structs
--                      (Scan), with strconv's integers (Number), and what the CreateXxx functions
--                      of the packages do with both (Create, and a child Create of each package)
--   Retry.antt         retry/client.go: the client and its options
--   CircuitBreaker.antt  circuitbreaker/client.go: options (Settings), Start and Execute (Start)
--   Event.antt         event/: OR and AND, over channels as times (combine_signal.go), and the
--                      listeners of an event as moves in any order (Listen: client.go, server.go)
--   Log.antt           log/: loggers, the factory and the field adapter of spans
--   Trace.antt         trace/tracer.go: the tracing client, and how it starts and stops a span (Spans),
--                      which reports through the loggers of Log.antt
--   Grpc.antt          grpc/: jobs and the worker pool's interceptor (Job: job.go, server.go), the
--                      server, which starts the pools of Pool.antt (Server: server.go), the client
--                      (Client: client.go)
--   Redis.antt         redis/client.go: options, Connect and Disconnect
--   Mqtt.antt          mqtt/client.go: options, Connect, Disconnect and Send
--   Mysql.antt         mysql/: Connect (client.go) and the JSON columns (Columns: map.go, slice.go)
--   Library.antt       library/: times as JSON (time.go), ToString and Recover (common.go)
--   Tests.antt         runs of the definitions and uses of the theorems at concrete inputs
--
-- State and errors. What a call changes is passed on explicitly; a call that may fail returns the
-- new state with an optional error, and a panic is `none` or a result
-- of its own (`panicked`). A wait that never ends is a result of
-- its own (`blocked`). Goroutines are modelled where their order shows: those of a pool take steps
-- in any order, the broadcaster's rounds are single steps, since each channel has at most one
-- holder at a time, and the scan of nested structs keeps the list of all errors that some order
-- returns. Time is a number in Event and is left out elsewhere.
--
-- Numbers. Counts and sizes are natural numbers; int, int64 and time.Duration are integers, reduced
-- to 64 bits where the code multiplies them (Base/Int.antt). Widths of fields that are parsed from
-- text are those of their kinds.
--
-- Fuel. The digits of a number n are printed in n + 1 rounds, each of which divides by ten. The
-- rounds of OR are as many as its channels, and each takes two channels off the list.
--
-- Arguments. Code outside the repository is an argument: JSON and form decoders, encoding/json's
-- output, the database, net/http's Shutdown and the listener, the environment variables,
-- strconv.ParseFloat, the back-offs of cenkalti/backoff, the manager of cep21/circuit, net/http's
-- transports, zap, the collectors of zipkin-go-opentracing, the libraries of grpc, go-redis,
-- paho.mqtt and sqlx. What a theorem relies on in them is a named law (AssertionLaws, FindsCreated,
-- KeepsOnError, OneInterceptor, JsonLaws, NoQuotes).
--
-- Not modelled: locks, except those of a pool and of an event; stack traces; what the packages log,
-- except in trace/ and in the tracer middleware. scripts/zipkin is a copy of another project.
pub mod Base
pub mod Reflect
pub mod Http
pub mod Pool
pub mod Crudl
pub mod Broadcast
pub mod Environment
pub mod Retry
pub mod CircuitBreaker
pub mod Event
pub mod Log
pub mod Trace
pub mod Grpc
pub mod Redis
pub mod Mqtt
pub mod Mysql
pub mod Library
pub mod Tests
