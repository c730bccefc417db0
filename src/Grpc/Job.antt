-- ===== src/Grpc/Job.antt =====
-- grpc/job.go, and the interceptor of SetMiddlewarePoolWorkerOption in grpc/server.go. What QueueJob
-- answers is an argument: nil when a worker has taken the job, or an error.
pub mod Laws
use go_m.Base.{
  ℕ, String, ◌≡◌, refl, Bool, true, false, Option, none, some, List, [], ◌∷◌, ◌++◌, ltb, length,
  if◌then◌else◌, GoError, plain, wrapped,
}
use go_m.Base.Text.{◌<>◌, string_tags}
use go_m.Http.Job.{Progress, finished, stuck}

pub record JobResult (R : Type 0) : Type 0 where
  pub resp : Option R
  pub err : Option GoError

-- A buffered channel of results.
pub record ResultChan (R : Type 0) : Type 0 where
  pub cap : ℕ
  pub queued : List (JobResult R)

-- grpc.UnaryHandler, over a world `W` that it changes.
abbrev pub UnaryHandler : Type 0 → Type 0 → Type 0 → Type 0 → Type 0
UnaryHandler X Q R W = X → Q → W → W × JobResult R

pub record JobHandler (X Q R W : Type 0) : Type 0 where
  pub name : String
  pub ctx : X
  pub req : Q
  pub handler : Option (UnaryHandler X Q R W)
  pub c : Option (ResultChan R)

module _ {R W : Type 0} where
  -- `result := <-job.c`
  abbrev pub take_result : W → Option (ResultChan R) → Progress (W × JobResult R)
  take_result w none = stuck (w, record { resp = none; err = none })
  take_result w (some ch) = elim ch.queued [
    | [] ↦ stuck (w, record { resp = none; err = none })
    | result ∷ rest ↦ finished (w, result)
  ]

module _ {X Q R W : Type 0} where
  -- A send on a full channel waits for a receiver, which the worker's goroutine does not have.
  abbrev pub put_result :
      JobHandler X Q R W
      → ResultChan R
      → W × JobResult R
      → Progress (W × (JobHandler X Q R W × Option GoError))
  put_result job ch (w, result) =
      if ltb (length ch.queued) ch.cap
      then finished
          (w, (record job { c = some (record ch { queued = ch.queued ++ result ∷ [] }) }, none))
      else stuck (w, (job, none))

  abbrev pub execute_with :
      Option (UnaryHandler X Q R W)
      → Option (ResultChan R)
      → JobHandler X Q R W
      → W
      → Progress (W × (JobHandler X Q R W × Option GoError))
  execute_with none ch job w = finished (w, (job, some (plain "empty handler")))
  execute_with (some handle) none job w = finished (w, (job, some (plain "empty result channel")))
  execute_with (some handle) (some ch) job w = put_result job ch (handle job.ctx job.req w)

  -- Execute
  unfoldable pub execute :
      JobHandler X Q R W → W → Progress (W × (JobHandler X Q R W × Option GoError))
  execute job w = execute_with job.handler job.c job w

  abbrev pub job_of : String → X → Q → UnaryHandler X Q R W → JobHandler X Q R W
  job_of full_method ctx req handle = record {
    name = "interceptor" <> full_method;
    ctx = ctx;
    req = req;
    handler = some handle;
    c = some (record { cap = 1; queued = [] });
  }

  abbrev pub await_result :
      Progress (W × (JobHandler X Q R W × Option GoError)) → Progress (W × JobResult R)
  await_result (finished (w, (job, err))) = take_result w job.c
  await_result (stuck (w, (job, err))) = stuck (w, record { resp = none; err = none })

  -- The interceptor.
  unfoldable pub intercept :
      Option GoError → String → X → Q → UnaryHandler X Q R W → W → Progress (W × JobResult R)
  unfolding execute string_tags
  intercept (some e) full_method ctx req handle w = finished (
    w,
    record { resp = none; err = some (wrapped (string_tags ("pool worker middleware" ∷ [])) e) },
  )
  intercept none full_method ctx req handle w =
      await_result (execute (job_of full_method ctx req handle) w)
