-- ===== src/Http/Job/Laws.antt =====
-- How often a request is handled behind a worker pool, and what becomes of the worker.
use go_m.Base.{◌≡◌, refl, Option, none, some, GoError}
use go_m.Http.Response.{Writer}
use go_m.Http.Params.{Request}
use go_m.Http.Routes.{HandlerFunc}
use go_m.Http.Job.{Progress, finished, stuck, execute, serve_worker_pool, async_job}

module _ {C O W : Type 0} where
  -- Behind the worker pool middleware a request is handled twice when a worker takes its job: once
  -- by the worker and once more by the goroutine of the request. When QueueJob refuses the job, the
  -- request is not handled and its goroutine waits for ever.
  pub serve_worker_pool_twice :
      (queued : Option GoError) (next : HandlerFunc C O W) (r : Request C O) (st : W × Writer)
      → serve_worker_pool queued next r st ≡ (elim queued as (λ _. Progress (W × Writer)) [
        | none ↦ finished (next r (next r st))
        | some e ↦ stuck st
      ])
  unfolding serve_worker_pool
  serve_worker_pool_twice none next r st = refl
  serve_worker_pool_twice (some e) next r st = refl

  -- A job of SetupWorkerPoolHandler never gives its worker back: the handler runs, and then the
  -- worker waits for ever on the channel that the job does not have.
  pub execute-async_job :
      (handle : HandlerFunc C O W) (r : Request C O) (st : W × Writer)
      → execute (async_job handle r) st ≡ stuck ((handle r st, none), none)
  unfolding execute async_job
  execute-async_job handle r st = refl
