-- ===== src/Crudl/Serve.antt =====
-- The routes of crudl/register.go on the server of http/server.go: what a caller of Register does with
-- the routes that it returns.
use go_m.Base.{
  String, ◌≡◌, refl, sym, ap, ◌∙◌, ◌≢◌, Bool, true, false, none, some, List, [], ◌∷◌, ◌++◌, map,
  str_eq, ◌&&◌, if◌then◌else◌, All, All-append, or_else,
}
use mathlib.Core.Path.{subst}
use mathlib.Core.Option.{some-injective}
use text.Mathlib.TextPositions.{eq_refl}
use go_m.Base.Text.{sprintf, ◌<>◌}
use go_m.Reflect.{Value}
use go_m.Http.Response.{Runtime, Writer}
use go_m.Http.Params.{Request, build_route_handler}
use go_m.Http.Routes.{ServerRoute, method_post, method_options, cors_headers}
use go_m.Http.Server.{Server, returned, set_handler_option, serve}
use go_m.Http.Server.Routing.{first_route, last_route}
use go_m.Http.Server.Dispatch.{serve_first_method, handled_by}
use go_m.Crudl.Scan.{Field, Config}
use go_m.Crudl.Register.{
  Route, table_path, register_if, register_routes, register_c, register_r, register_u, register_d,
  register_l,
}
use go_m.Crudl.Handler.{Service, handle, handle_create}

path_used : (table tail : String) → "/" <> (table <> tail) ≢ ""
path_used table tail h = cc h

module _ {C D F : Type 0} (s : Service C D F) (c : Config (Value F)) (pk : Field) where
  -- The http.ServerRoute of a registered route; the handlers read the configuration that Register
  -- leaves.
  abbrev pub server_route : Route C (Value F) → ServerRoute C (Value F) D
  server_route r = record {
    name = r.name;
    method = r.method;
    path = r.path;
    validators = r.validators;
    handler = handle s c pk r.operation;
  }

module _ {C F : Type 0} where
  -- A route for another method than POST.
  abbrev IsOther : Route C (Value F) → Type 0
  IsOther r = (str_eq r.method method_post ≡ false) × (r.path ≢ "")

  abbrev Begins : Route C (Value F) → Config (Value F) × List (Route C (Value F)) → Type 0
  Begins first (c, routes) =
      (rest : List (Route C (Value F))) × (routes ≡ first ∷ rest) × All IsOther rest

  register_if-Begins :
      (flag : Bool) (first : Route C (Value F))
      (register : Config (Value F) → Config (Value F) × Route C (Value F))
      (st : Config (Value F) × List (Route C (Value F)))
      → ((c : Config (Value F)) → IsOther (register c).1)
      → Begins first st
      → Begins first (register_if flag register st)
  register_if-Begins true first register (c, routes) other (rest, e, h) = (
    rest ++ (register c).1 ∷ [],
    ap (λ rs. rs ++ (register c).1 ∷ []) e,
    All-append IsOther rest ((register c).1 ∷ []) h (other c, tt),
  )
  register_if-Begins false first register (c, routes) other h = h

module _ (C : Type 0) {F : Type 0} where
  register_r-IsOther : (pk : Field) (c : Config (Value F)) → IsOther (register_r {C = C} pk c).1
  unfolding register_r sprintf
  register_r-IsOther pk c = (refl, path_used c.table_name "")

  register_u-IsOther : (pk : Field) (c : Config (Value F)) → IsOther (register_u {C = C} pk c).1
  unfolding register_u sprintf
  register_u-IsOther pk c = (refl, path_used c.table_name "")

  register_d-IsOther : (pk : Field) (c : Config (Value F)) → IsOther (register_d {C = C} pk c).1
  unfolding register_d sprintf
  register_d-IsOther pk c = (refl, path_used c.table_name "")

  register_l-IsOther : (pk : Field) (c : Config (Value F)) → IsOther (register_l {C = C} pk c).1
  unfolding register_l sprintf
  register_l-IsOther pk c = (refl, path_used c.table_name "/list")

module _ {C F : Type 0} where
  register_routes-Begins :
      (pk : Field) (c : Config (Value F))
      → c.use_c ≡ true
      → Begins {C = C} (register_c pk c).1 (register_routes pk c)
  unfolding register_routes
  register_routes-Begins pk c used =
      register_if-Begins c.use_l _ (register_l pk) _ (register_l-IsOther C pk) (
        register_if-Begins c.use_d _ (register_d pk) _ (register_d-IsOther C pk) (
          register_if-Begins c.use_u _ (register_u pk) _ (register_u-IsOther C pk) (
            register_if-Begins c.use_r _ (register_r pk) _ (register_r-IsOther C pk) (
              subst
                (λ b. Begins {C = C} (register_c pk c).1 (register_if b (register_c pk) (c, [])))
                (sym used) ([], refl, tt)))))

module _ {C D F : Type 0} (s : Service C D F) (c : Config (Value F)) (pk : Field) where
  abbrev routes_of : List (Route C (Value F)) → List (ServerRoute C (Value F) D)
  routes_of = map (server_route s c pk)

  routes_of-named :
      (rs : List (Route C (Value F))) → All IsOther rs → All (λ r. r.path ≢ "") (routes_of rs)
  routes_of-named [] h = tt
  routes_of-named (r ∷ rs) h = (h.0.1, routes_of-named rs h.1)

  and-false : (b : Bool) → (b && false) ≡ false
  and-false true = refl
  and-false false = refl

  last_route-others :
      (p : String) (rs : List (Route C (Value F)))
      → All IsOther rs
      → last_route p method_post (routes_of rs) ≡ none
  unfolding last_route
  last_route-others p [] h = refl
  last_route-others p (r ∷ rs) h =
      ap
        (λ o. or_else o (
          if str_eq r.path p && str_eq r.method method_post
          then some (server_route s c pk r)
          else none))
        (last_route-others p rs h.1)
      ∙ ap (λ b. if str_eq r.path p && b then some (server_route s c pk r) else none) h.0.0
      ∙ ap (λ b. if b then some (server_route s c pk r) else none) (and-false (str_eq r.path p))

  first_route-first :
      (first : Route C (Value F)) (rs : List (Route C (Value F)))
      → first_route first.path (routes_of (first ∷ rs)) ≡ some (server_route s c pk first)
  unfolding first_route
  first_route-first first rs =
      ap
        (λ b. if b then some (server_route s c pk first) else first_route first.path (routes_of rs))
        (eq_refl first.path)

  last_route-first :
      (first : Route C (Value F)) (rs : List (Route C (Value F)))
      → first.method ≡ method_post
      → All IsOther rs
      → last_route first.path method_post (routes_of (first ∷ rs))
        ≡ some (server_route s c pk first)
  unfolding last_route
  last_route-first first rs post h =
      ap
        (λ o. or_else o (
          if str_eq first.path first.path && str_eq first.method method_post
          then some (server_route s c pk first)
          else none))
        (last_route-others first.path rs h)
      ∙ ap
          (λ b.
            if b && str_eq first.method method_post then some (server_route s c pk first) else none)
          (eq_refl first.path)
      ∙ ap (λ m. if str_eq m method_post then some (server_route s c pk first) else none) post

-- On a server that has been started for the first time, after SetHandlerOption with the routes of a
-- Register that includes UseC, every request to the table's path that is no preflight creates an
-- object: whatever its method is, also GET, PATCH and DELETE, it runs the handler of Create behind the
-- validators of Create.
pub serve-register_routes :
    {V C D F : Type 0} (rt : Runtime V) (s : Service C D F) (pk : Field) (c : Config (Value F))
    (server : Server C (Value F) D)
    → c.use_c ≡ true
    → server.routes ≡ none
    → server.mux ≡ some []
    → (r : Request C (Value F)) (st : D × Writer) → r.method ≢ method_options
    → (server' : Server C (Value F) D) × (set_handler_option
          (map (server_route s (register_routes {C = C} pk c).0 pk) (register_routes pk c).1)
          server
        ≡ returned server' none)
      × (serve rt server' (table_path c.table_name) r st
          ≡ some (
              build_route_handler method_post
                (register_c pk c).1.validators
                (handle_create s (register_routes {C = C} pk c).0 pk)
                r
                (st.0, st.1 ++ cors_headers)))
unfolding handle register_c sprintf
serve-register_routes {C = C} rt s pk c server used fresh empty r st other =
    let c' = (register_routes {C = C} pk c).0 in
    let first = (register_c {C = C} pk c).1 in
    let (rest, e, others) = register_routes-Begins {C = C} pk c used in
    let same = ap (routes_of s c' pk) e in
    let named =
      subst (λ rs. All (λ x. x.path ≢ "") (routes_of s c' pk rs)) (sym e)
        (path_used c.table_name "", routes_of-named s c' pk rest others) in
    let (server', l, done, last, answer) =
      serve_first_method rt (routes_of s c' pk (register_routes pk c).1) server named fresh empty
        first.path (server_route s c' pk first) r st
        (ap (first_route first.path) same ∙ first_route-first s c' pk first rest) other in
    let created : l ≡ server_route s c' pk first = some-injective l (server_route s c' pk first) (
      sym last
      ∙ ap (last_route first.path method_post) same
      ∙ last_route-first s c' pk first rest refl others) in
    (server', done, answer ∙ ap (λ x. some (handled_by x r st)) created)
