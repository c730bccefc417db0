-- ===== src/Http/Job.antt =====
-- http/job.go, http/middleware_workerpool.go and SetupWorkerPoolHandler of http/server.go. What
-- QueueJob answers is an argument: nil when a worker has taken the job, or an error.
pub mod Laws
use go_m.Base.{
  ℕ, ◌+◌, ◌-◌, String, ◌≡◌, refl, Bool, true, false, Option, none, some, List, [], ◌∷◌, arith, ltb,
  if◌then◌else◌, GoError, plain,
}
use go_m.Http.Response.{Runtime, Writer, send_error, send_response, status_ok, success}
use go_m.Http.Params.{Request}
use go_m.Http.Routes.{HandlerFunc}

-- A buffered channel of empty structs that one goroutine at a time uses.
pub record Chan : Type 0 where
  pub cap : ℕ
  pub queued : ℕ

-- How a call ends: it returns, or its goroutine waits on a channel that nobody else serves.
pub data Progress (S : Type 0) : Type 0 where
  finished : S → Progress S
  stuck : S → Progress S

pub record JobHandler (C O W : Type 0) : Type 0 where
  pub name : String
  pub request : Request C O
  pub handler : Option (HandlerFunc C O W)
  pub c : Option Chan

-- A send on a nil channel waits for ever; one on a full channel waits for a receiver.
abbrev send : {S : Type 0} → Option Chan → S → Progress (S × Option Chan)
send none s = stuck (s, none)
send (some ch) s =
    if ltb ch.queued ch.cap
    then finished (s, some (record ch { queued = ch.queued + 1 }))
    else stuck (s, some ch)

abbrev receive : {S : Type 0} → Option Chan → S → Progress (S × Option Chan)
receive none s = stuck (s, none)
receive (some ch) s =
    if ltb 0 ch.queued
    then finished (s, some (record ch { queued = ch.queued - 1 }))
    else stuck (s, some ch)

module _ {C O W : Type 0} where
  abbrev execute_with :
      Option (HandlerFunc C O W)
      → JobHandler C O W
      → W × Writer
      → Progress (((W × Writer) × Option Chan) × Option GoError)
  execute_with none job st = finished ((st, job.c), some (plain "empty handler"))
  execute_with (some handle) job st = elim (send job.c (handle job.request st)) [
    | finished s ↦ finished (s, none)
    | stuck s ↦ stuck (s, none)
  ]

  -- Execute.
  unfoldable pub execute :
      JobHandler C O W → W × Writer → Progress (((W × Writer) × Option Chan) × Option GoError)
  execute job st = execute_with job.handler job st

  abbrev job_of : HandlerFunc C O W → Request C O → JobHandler C O W
  job_of next r = record {
    name = "handle http request";
    request = r;
    handler = some next;
    c = some (record { cap = 1; queued = 0 });
  }

  abbrev pub then_serve :
      HandlerFunc C O W
      → Request C O
      → Progress ((W × Writer) × Option Chan)
      → Progress (W × Writer)
  then_serve next r (finished (st, ch)) = finished (next r st)
  then_serve next r (stuck (st, ch)) = stuck st

  -- WorkerPoolMiddleware.ServeHTTP: the job is queued, its channel is read, and the handler that the
  -- middleware wraps is served. The error of QueueJob is dropped.
  unfoldable pub serve_worker_pool :
      Option GoError → HandlerFunc C O W → Request C O → W × Writer → Progress (W × Writer)
  unfolding execute
  serve_worker_pool (some e) next r st = then_serve next r (receive ((job_of next r).c) st)
  serve_worker_pool none next r st = elim (execute (job_of next r) st) [
    | stuck ((st', ch), e) ↦ stuck st'
    | finished ((st', ch), e) ↦ then_serve next r (receive ch st')
  ]

  -- The job that the handler of SetupWorkerPoolHandler makes: it has no channel.
  unfoldable pub async_job : HandlerFunc C O W → Request C O → JobHandler C O W
  async_job handle r = record {
    name = "handle http request async";
    request = r;
    handler = some handle;
    c = none;
  }

module _ {V : Type 0} (rt : Runtime V) where
  -- The answer of that handler to its own client.
  unfoldable pub answer_queued : Option GoError → Writer → Writer
  answer_queued (some e) w = (send_error rt e w).0
  answer_queued none w = (send_response rt status_ok success "successfully queued job" [] w).0
