-- ===== src/Grpc/Job/Laws.antt =====
-- How often a call is handled behind the worker pool's interceptor of grpc/server.go.
use go_m.Base.{String, ◌≡◌, refl, Option, none, some, [], ◌∷◌, GoError, wrapped}
use go_m.Base.Text.{string_tags}
use go_m.Http.Job.{Progress, finished}
use go_m.Grpc.Job.{JobResult, UnaryHandler, intercept}

module _ {X Q R W : Type 0} where
  -- A call whose job a worker takes is handled once, and its caller gets the handler's result; one
  -- whose job is refused is not handled, and its caller gets the error. Neither waits for ever.
  pub intercept_once :
      (queued : Option GoError) (full_method : String) (ctx : X) (req : Q)
      (handle : UnaryHandler X Q R W) (w : W)
      → intercept queued full_method ctx req handle w
        ≡ (elim queued as (λ _. Progress (W × JobResult R)) [
          | none ↦ finished (handle ctx req w)
          | some e ↦ finished (
            w,
            record {
              resp = none;
              err = some (wrapped (string_tags ("pool worker middleware" ∷ [])) e);
            },
          )
        ])
  unfolding intercept
  intercept_once none full_method ctx req handle w = refl
  intercept_once (some e) full_method ctx req handle w = refl
