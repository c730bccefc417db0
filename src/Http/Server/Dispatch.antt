-- ===== src/Http/Server/Dispatch.antt =====
-- Which handler answers a request, for a server whose routes were set by SetHandlerOption.
use go_m.Base.{
  String, ◌≡◌, refl, ap, ◌∙◌, ◌≢◌, inl, inr, true, false, Option, none, some, List, [], ◌∷◌, ◌++◌,
  str_eq, eq_iff, Bool-cases, lookup, All, is_some, or_else,
}
use mathlib.Core.Path.{ap₂}
use mathlib.Core.Option.{some-injective}
use text.Mathlib.TextPositions.{eq_refl}
use go_m.Http.Response.{Runtime, Writer, success}
use go_m.Http.Response.Laws.{sent_status, send_response_lem, sent_status-append_none}
use go_m.Http.Params.{Request}
use go_m.Http.Routes.{
  ServerRoute, RouteMap, path_handler, find_handler, route_map, method_options, cors_headers,
  preflight_headers,
}
use go_m.Http.Server.{
  Server, ServeMux, returned, set_routes, set_handler_option, serve, serve_at, serve_found,
  set_handlers_at, store_routes,
}
use go_m.Http.Server.Routing.{
  first_route, last_route, handler_after, built, AreRouted, set_routes_lem,
}

module _ {C O W : Type 0} where
  -- The first route of a path is itself a route for that path and its own method.
  last_route_of_first :
      (p : String) (rs : List (ServerRoute C O W)) (f : ServerRoute C O W)
      → first_route p rs ≡ some f
      → (l : ServerRoute C O W) × (last_route p f.method rs ≡ some l)
  unfolding first_route last_route
  last_route_of_first p [] f h = cc
  last_route_of_first p (r ∷ rs) f h = elim (Bool-cases (str_eq r.path p)) [
    | inl e ↦
        let same : r ≡ f = some-injective r f (first_of_true e) in
        let method : str_eq r.method f.method ≡ true = rw same (eq_refl f.method) in
        rw (e, method) (found (last_route p f.method rs))
    | inr e ↦ let (l, later) = last_route_of_first p rs f (first_of_false e) in (l, rw later refl)
  ]
    where
      found :
          (o : Option (ServerRoute C O W)) → (l : ServerRoute C O W) × (or_else o (some r) ≡ some l)
      found none = (r, refl)
      found (some x) = (x, refl)

      first_of_true : str_eq r.path p ≡ true → some r ≡ some f
      first_of_true e = rw e at h

      first_of_false : str_eq r.path p ≡ false → first_route p rs ≡ some f
      first_of_false e = rw e at h

  first_route_path :
      (p : String) (rs : List (ServerRoute C O W)) (f : ServerRoute C O W)
      → first_route p rs ≡ some f
      → f.path ≡ p
  unfolding first_route
  first_route_path p [] f h = cc
  first_route_path p (r ∷ rs) f h = elim (Bool-cases (str_eq r.path p)) [
    | inl e ↦
        let same : r ≡ f = some-injective r f (first_of_true e) in
        rw (← same) ((eq_iff r.path p).0 e)
    | inr e ↦ first_route_path p rs f (first_of_false e)
  ]
    where
      first_of_true : str_eq r.path p ≡ true → some r ≡ some f
      first_of_true e = rw e at h

      first_of_false : str_eq r.path p ≡ false → first_route p rs ≡ some f
      first_of_false e = rw e at h

  -- SetHandlerOption cannot panic on a server that Start has just initialised, for routes that have
  -- a path; it sets Routes and the mux as the route list says.
  set_handler_option-AreRouted :
      (rs : List (ServerRoute C O W)) (s : Server C O W)
      → All (λ r. r.path ≢ "") rs
      → s.routes ≡ none
      → s.mux ≡ some []
      → (m' : Option (RouteMap C O W)) × (mux' : ServeMux C O W) × (set_handler_option rs s
          ≡ returned (record s { routes = m'; mux = some mux' }) none)
        × AreRouted rs [] [] (route_map m') mux'
  unfolding set_handler_option lookup
  set_handler_option-AreRouted rs s named fresh empty =
      let (m', mux', done, set) = set_routes_lem rs none [] named (λ p. nothing p) in
      (
        m',
        mux',
        ap (set_handlers_at rs s) empty
            ∙ ap (λ (o : Option (RouteMap C O W)). store_routes s (set_routes rs (o, []))) fresh
            ∙ ap (store_routes s) done,
        set,
      )
    where
      nothing :
          (p : String)
          → is_some (lookup {V = ServerRoute C O W} p [])
            ≡ is_some (lookup p (route_map {C = C} {O = O} {W = W} none))
      nothing p = refl

  -- The request that a route's handler gets: its validators are put into the context, if there are
  -- any.
  abbrev pub handled_by : ServerRoute C O W → Request C O → W × Writer → W × Writer
  handled_by l r st = built l r (st.0, st.1 ++ cors_headers)

module _ {V C O W : Type 0} (rt : Runtime V) where
  serve_mux_at :
      (s : Server C O W) (m : Option (RouteMap C O W)) (mux : ServeMux C O W) (p : String)
      (o : Option (ServerRoute C O W)) (r : Request C O) (st : W × Writer)
      → s.mux ≡ some mux
      → s.routes ≡ m
      → lookup p mux ≡ o
      → serve rt s p r st ≡ serve_found rt o (route_map m) r st
  unfolding serve
  serve_mux_at s m mux p o r st a b c =
      ap₂
        (λ (x : Option (ServeMux C O W)) (y : Option (RouteMap C O W)).
          serve_at rt x (route_map y) p r st)
        a b
      ∙ ap (λ (x : Option (ServerRoute C O W)). serve_found rt x (route_map m) r st) c

  path_handler_found :
      (m : RouteMap C O W) (f l : ServerRoute C O W) (r : Request C O) (st : W × Writer)
      → r.method ≢ method_options
      → find_handler m f.path f.method ≡ some (built l)
      → path_handler rt m f r st ≡ handled_by l r st
  unfolding path_handler
  path_handler_found m f l r st other found = elim (Bool-cases (str_eq r.method method_options)) [
    | inl e ↦ absurd (other ((eq_iff r.method method_options).0 e))
    | inr e ↦ rw (e, found)
  ]

  path_handler_preflight :
      (m : RouteMap C O W) (f : ServerRoute C O W) (r : Request C O) (st : W × Writer)
      → r.method ≡ method_options
      → sent_status st.1 ≡ none
      → ((path_handler rt m f r st).0 ≡ st.0)
        × (sent_status (path_handler rt m f r st).1 ≡ some 200)
  unfolding path_handler sent_status
  path_handler_preflight m f r st same quiet =
      let e : str_eq r.method method_options ≡ true = (eq_iff r.method method_options).1 same in
      let headers = cors_headers ++ preflight_headers in
      rw e (
        refl,
        (send_response_lem rt 200 success "ok" [] (st.1 ++ headers)).0
            (sent_status-append_none st.1 headers quiet),
      )

  module _ (rs : List (ServerRoute C O W)) (s : Server C O W) (named : All (λ r. r.path ≢ "") rs)
      (fresh : s.routes ≡ none) (empty : s.mux ≡ some []) (p : String) where
    -- SetHandlerOption, with routes that all have a path, on a server that Start has just
    -- initialised for the first time, returns no error. On the server that it leaves, a request
    -- that is no preflight and whose path is that of some route runs the handler of the last route
    -- that has this path and the method of the FIRST route with this path, behind the CORS headers.
    -- The method of the request plays no part in the choice, and no such request is refused.
    pub serve_first_method :
        (f : ServerRoute C O W) (r : Request C O) (st : W × Writer)
        → first_route p rs ≡ some f
        → r.method ≢ method_options
        → (s' : Server C O W) × (l : ServerRoute C O W) × (set_handler_option rs s
            ≡ returned s' none)
          × (last_route p f.method rs ≡ some l)
          × (serve rt s' p r st ≡ some (handled_by l r st))
    unfolding lookup
    serve_first_method f r st first other =
        let (m', mux', done, set) = set_handler_option-AreRouted rs s named fresh empty in
        let (l, last) = last_route_of_first p rs f first in
        let same : f.path ≡ p = first_route_path p rs f first in
        let found : find_handler (route_map m') f.path f.method ≡ some (built l) = rw same (
          set.found p f.method
          ∙ ap (λ (o : Option (ServerRoute C O W)). handler_after o (find_handler [] p f.method))
              last) in
        (
          record s { routes = m'; mux = some mux' },
          l,
          done,
          last,
          serve_mux_at (record s { routes = m'; mux = some mux' }) m' mux' p (some f) r st refl refl
                (set.served p ∙ first)
              ∙ ap some (path_handler_found (route_map m') f l r st other found),
        )

    -- On that server a preflight request for a path that some route has is answered with status 200
    -- and runs no handler: the state of the program is left alone.
    pub serve_preflight :
        (f : ServerRoute C O W) (r : Request C O) (st : W × Writer)
        → first_route p rs ≡ some f
        → r.method ≡ method_options
        → sent_status st.1 ≡ none
        → (s' : Server C O W) × (w' : Writer) × (set_handler_option rs s ≡ returned s' none)
          × (serve rt s' p r st ≡ some (st.0, w'))
          × (sent_status w' ≡ some 200)
    unfolding lookup
    serve_preflight f r st first preflight quiet =
        let (m', mux', done, set) = set_handler_option-AreRouted rs s named fresh empty in
        let (world, status) = path_handler_preflight (route_map m') f r st preflight quiet in
        (
          record s { routes = m'; mux = some mux' },
          (path_handler rt (route_map m') f r st).1,
          done,
          serve_mux_at (record s { routes = m'; mux = some mux' }) m' mux' p (some f) r st refl refl
                (set.served p ∙ first)
              ∙ ap (λ (w : W). some (w, (path_handler rt (route_map m') f r st).1)) world,
          status,
        )
