-- ===== src/Http/Routes.antt =====
-- Routes of http/server.go: BuildHandler, the handler that it returns, and SetHandlerOption.
use go_m.Base.{
  String, Bool, Option, none, some, List, [], ◌∷◌, ◌++◌, str_eq, if◌then◌else◌, StringMap, lookup,
  lookup_nested, insert_nested, not, is_some,
}
use go_m.Base.Text.{join_with_comma}
use go_m.Http.Response.{
  Runtime, Writer, set_header, send_response, status_ok, status_method_not_allowed, success,
  malformed_method, header_content_type,
}
use go_m.Http.Params.{Request, ParamValidator, build_route_handler}

-- A handler acts on the state `W` of the program around it and on the response.
abbrev pub HandlerFunc : Type 0 → Type 0 → Type 0 → Type 0
HandlerFunc C O W = Request C O → W × Writer → W × Writer

pub record ServerRoute (C O W : Type 0) : Type 0 where
  pub name : String
  pub method : String
  pub path : String
  pub validators : List (ParamValidator C O)
  pub handler : HandlerFunc C O W

abbrev pub method_get : String
method_get = "GET"

abbrev pub method_post : String
method_post = "POST"

abbrev pub method_patch : String
method_patch = "PATCH"

abbrev pub method_delete : String
method_delete = "DELETE"

abbrev pub method_options : String
method_options = "OPTIONS"

-- Server.Routes, by path and then by method.
abbrev pub RouteMap : Type 0 → Type 0 → Type 0 → Type 0
RouteMap C O W = StringMap (StringMap (HandlerFunc C O W))

unfoldable pub http_methods : List String
http_methods = method_get ∷ method_post ∷ "PUT" ∷ method_patch ∷ method_delete ∷ method_options ∷ []

abbrev pub cors_headers : Writer
cors_headers =
    set_header "Access-Control-Allow-Origin" "*"
    ∷ set_header "Access-Control-Allow-Credentials" "true"
    ∷ set_header "Access-Control-Expose-Headers" (join_with_comma (header_content_type ∷ []))
    ∷ []

unfoldable pub preflight_headers : Writer
unfolding http_methods
preflight_headers =
    set_header "Access-Control-Allow-Headers"
      (join_with_comma (header_content_type ∷ "Authorization" ∷ "Origin" ∷ "Accept" ∷ []))
    ∷ set_header "Access-Control-Allow-Methods" (join_with_comma http_methods)
    ∷ []

module _ {C O W : Type 0} where
  -- `s.Routes[path][method]`
  unfoldable pub find_handler : RouteMap C O W → String → String → Option (HandlerFunc C O W)
  find_handler routes path method = lookup_nested path method routes

  -- A nil map reads as an empty one.
  abbrev pub route_map : Option (RouteMap C O W) → RouteMap C O W
  route_map none = []
  route_map (some m) = m

  -- BuildHandler: the new `Routes`, and whether a handler for the path is returned (and not nil).
  unfoldable pub build_handler : Option (RouteMap C O W) → ServerRoute C O W → RouteMap C O W × Bool
  build_handler routes route = (
    insert_nested route.path route.method
        (build_route_handler route.method route.validators route.handler) (route_map routes),
    not (is_some (lookup route.path (route_map routes))),
  )

module _ {V C O W : Type 0} (rt : Runtime V) where
  -- The handler that BuildHandler returns for the first route of a path. It looks the handler up at
  -- the time of the request, under the path and the method of that first route.
  unfoldable pub path_handler : RouteMap C O W → ServerRoute C O W → HandlerFunc C O W
  unfolding preflight_headers
  path_handler routes route r (world, w) =
      if str_eq r.method method_options
      then (
        world,
        (send_response rt status_ok success "ok" [] (w ++ (cors_headers ++ preflight_headers))).0,
      )
      else elim (find_handler routes route.path route.method) [
        | none ↦ (
          world,
          (send_response rt status_method_not_allowed malformed_method
              "method is not correct for the requested route" [] (w ++ cors_headers)).0,
        )
        | some handler ↦ handler r (world, w ++ cors_headers)
      ]
