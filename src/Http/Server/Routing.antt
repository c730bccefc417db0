-- ===== src/Http/Server/Routing.antt =====
-- Which handler a path runs.
use go_m.Base.{
  String, ◌≡◌, refl, ◌∙◌, ap, ◌≢◌, inl, inr, Bool, true, false, Option, none, some, List, [], ◌∷◌,
  ◌&&◌, str_eq, eq_iff, if◌then◌else◌, lookup, insert, map_of, All, lookup_nested-insert_nested,
  lookup-insert_nested, not, is_some, ◌↔◌, StringMap, Bool-cases, or_else,
}
use go_m.Http.Params.{build_route_handler}
use go_m.Http.Server.{ServeMux, set_route, set_routes, handle_func}
use go_m.Http.Routes.{HandlerFunc, ServerRoute, RouteMap, find_handler, build_handler, route_map}

is_some-or_else {ℓ κ} :
    {A : Type ℓ} {B : Type κ} (r : A) (y : B) (o : Option A) (x : Option B) (b : Bool)
    → is_some o ≡ is_some x
    → is_some (or_else o (if b then some r else none)) ≡ is_some (if b then some y else x)
is_some-or_else r y none x true h = refl
is_some-or_else r y (some a) x true h = refl
is_some-or_else r y none x false h = h
is_some-or_else r y (some a) x false h = h

or_else_if {ℓ} :
    {A : Type ℓ} (r : A) (o y : Option A) (b : Bool)
    → or_else (or_else o (if b then some r else none)) y ≡ or_else o (if b then some r else y)
or_else_if r none y true = refl
or_else_if r none y false = refl
or_else_if r (some a) y b = refl

module _ {C O W : Type 0} where
  -- After BuildHandler the route's path and method have its handler, with its validators, and every
  -- other path and method is as before.
  pub find_handler-build_handler :
      (routes : Option (RouteMap C O W)) (route : ServerRoute C O W) (p m : String)
      → find_handler (build_handler routes route).0 p m ≡ (
          if str_eq route.path p && str_eq route.method m
          then some (build_route_handler route.method route.validators route.handler)
          else find_handler (route_map routes) p m)
  unfolding find_handler build_handler
  find_handler-build_handler routes route p m =
      lookup_nested-insert_nested route.path route.method
        (build_route_handler route.method route.validators route.handler) (route_map routes) p m

  -- A handler for the path is returned exactly for its first route.
  pub build_handler_fresh_iff :
      (routes : Option (RouteMap C O W)) (route : ServerRoute C O W)
      → ((build_handler routes route).1 ≡ true) ↔ (lookup route.path (route_map routes) ≡ none)
  unfolding build_handler
  build_handler_fresh_iff routes route = by_inner (lookup route.path (route_map routes))
    where
      by_inner :
          (o : Option (StringMap (HandlerFunc C O W))) → (not (is_some o) ≡ true) ↔ (o ≡ none)
      by_inner none = ((λ _. refl), (λ _. refl))
      by_inner (some m) = ((λ h. cc), (λ h. cc))

  -- The route list read on its own: the first route of a path, and the last one of a path and method.
  unfoldable pub first_route : String → List (ServerRoute C O W) → Option (ServerRoute C O W)
  first_route p [] = none
  first_route p (r ∷ rs) = if str_eq r.path p then some r else first_route p rs

  unfoldable pub last_route :
      String → String → List (ServerRoute C O W) → Option (ServerRoute C O W)
  last_route p m [] = none
  last_route p m (r ∷ rs) =
      or_else (last_route p m rs) (if str_eq r.path p && str_eq r.method m then some r else none)

  abbrev pub built : ServerRoute C O W → HandlerFunc C O W
  built r = build_route_handler r.method r.validators r.handler

  -- The handlers that a list of routes leaves behind.
  abbrev pub handler_after :
      Option (ServerRoute C O W) → Option (HandlerFunc C O W) → Option (HandlerFunc C O W)
  handler_after none old = old
  handler_after (some r) old = some (built r)

  handler_after_cons :
      (p m : String) (r : ServerRoute C O W) (rs : List (ServerRoute C O W))
      (old : Option (HandlerFunc C O W))
      → handler_after
          (last_route p m rs)
          (if str_eq r.path p && str_eq r.method m then some (built r) else old)
        ≡ handler_after (last_route p m (r ∷ rs)) old
  unfolding last_route
  handler_after_cons p m r rs old =
      by_cases (last_route p m rs) (str_eq r.path p && str_eq r.method m)
    where
      by_cases :
          (o : Option (ServerRoute C O W)) (b : Bool)
          → handler_after o (if b then some (built r) else old)
            ≡ handler_after (or_else o (if b then some r else none)) old
      by_cases none true = refl
      by_cases none false = refl
      by_cases (some x) b = refl

  -- Routes and the mux know the same paths.
  abbrev pub Agree : RouteMap C O W → ServeMux C O W → Type 0
  Agree m mux = (p : String) → is_some (lookup p mux) ≡ is_some (lookup p m)

  -- What a row of routes does to Routes and to the mux.
  pub record AreRouted (rs : List (ServerRoute C O W)) (m : RouteMap C O W) (mux : ServeMux C O W)
      (m' : RouteMap C O W) (mux' : ServeMux C O W) : Type 0 where
    pub found :
        (p q : String)
        → find_handler m' p q ≡ handler_after (last_route p q rs) (find_handler m p q)
    pub served : (p : String) → lookup p mux' ≡ or_else (lookup p mux) (first_route p rs)

  or_else-none : (o : Option (ServerRoute C O W)) → o ≡ or_else o none
  or_else-none none = refl
  or_else-none (some x) = refl

  lookup_new :
      (r : ServerRoute C O W) (mux : ServeMux C O W) (p : String)
      → lookup r.path mux ≡ none
      → lookup p ((r.path, r) ∷ mux)
        ≡ or_else (lookup p mux) (if str_eq r.path p then some r else none)
  unfolding lookup
  lookup_new r mux p absent = elim (Bool-cases (str_eq r.path p)) [
    | inl e ↦
        let same : r.path ≡ p = (eq_iff r.path p).0 e in
        let gone : lookup p mux ≡ none = rw (← same) absent in rw (e, gone)
    | inr e ↦ rw e (or_else-none (lookup p mux))
  ]

  lookup_kept :
      (r : ServerRoute C O W) (mux : ServeMux C O W) (p : String)
      → is_some (lookup r.path mux) ≡ true
      → lookup p mux ≡ or_else (lookup p mux) (if str_eq r.path p then some r else none)
  lookup_kept r mux p present = elim (Bool-cases (str_eq r.path p)) [
    | inl e ↦
        let same : r.path ≡ p = (eq_iff r.path p).0 e in
        by_found (lookup p mux) (rw (← same) present)
    | inr e ↦ rw e (or_else-none (lookup p mux))
  ]
    where
      by_found :
          (o : Option (ServerRoute C O W))
          → is_some o ≡ true
          → o ≡ or_else o (if str_eq r.path p then some r else none)
      by_found none h = cc
      by_found (some x) h = refl

  handle_func_new :
      (r : ServerRoute C O W) (mux : ServeMux C O W)
      → r.path ≢ ""
      → lookup r.path mux ≡ none
      → handle_func r.path r mux ≡ some ((r.path, r) ∷ mux)
  unfolding handle_func
  handle_func_new r mux named absent = elim (Bool-cases (str_eq r.path "")) [
    | inl e ↦ absurd (named ((eq_iff r.path "").0 e))
    | inr e ↦ rw (e, absent)
  ]

  not_listed : (o : Option (ServerRoute C O W)) → is_some o ≡ false → o ≡ none
  not_listed none h = refl
  not_listed (some x) h = cc

  -- One round: it cannot panic for a route with a path, and it makes these changes.
  set_route_lem :
      (r : ServerRoute C O W) (routes : Option (RouteMap C O W)) (mux : ServeMux C O W)
      → r.path ≢ ""
      → Agree (route_map routes) mux
      → (mux' : ServeMux C O W) × (set_route r (routes, mux)
          ≡ some (some (build_handler routes r).0, mux'))
        × ((p : String)
            → lookup p mux' ≡ or_else (lookup p mux) (if str_eq r.path p then some r else none))
  unfolding set_route build_handler
  set_route_lem r routes mux named agree = by_inner (lookup r.path (route_map routes)) refl
    where
      by_inner :
          (o : Option (StringMap (HandlerFunc C O W)))
          → lookup r.path (route_map routes) ≡ o
          → (mux' : ServeMux C O W) × (set_route r (routes, mux)
              ≡ some (some (build_handler routes r).0, mux'))
            × ((p : String)
                → lookup p mux' ≡ or_else (lookup p mux) (if str_eq r.path p then some r else none))
      by_inner none e =
          let absent : lookup r.path mux ≡ none =
            not_listed (lookup r.path mux) (rw (agree r.path, e) refl) in
          (
            (r.path, r) ∷ mux,
            rw (e, set_route) (rw (handle_func_new r mux named absent)),
            λ p. lookup_new r mux p absent,
          )
      by_inner (some m) e =
          (mux, rw (e, set_route) refl, λ p. lookup_kept r mux p (rw (agree r.path, e) refl))

  pub lookup-build_handler :
      (routes : Option (RouteMap C O W)) (r : ServerRoute C O W) (p : String)
      → lookup p (build_handler routes r).0 ≡ (
          if str_eq r.path p
          then some (insert r.method (built r) (map_of (lookup r.path (route_map routes))))
          else lookup p (route_map routes))
  unfolding build_handler
  lookup-build_handler routes r p =
      lookup-insert_nested r.path r.method (built r) (route_map routes) p

  step-Agree :
      (r : ServerRoute C O W) (routes : Option (RouteMap C O W)) (mux mux' : ServeMux C O W)
      → Agree (route_map routes) mux
      → ((p : String)
          → lookup p mux' ≡ or_else (lookup p mux) (if str_eq r.path p then some r else none))
      → Agree (build_handler routes r).0 mux'
  step-Agree r routes mux mux' agree changes p =
      rw (changes p, lookup-build_handler routes r p)
        (is_some-or_else r _ (lookup p mux) (lookup p (route_map routes)) (str_eq r.path p)
          (agree p))

  pub set_routes_lem :
      (rs : List (ServerRoute C O W)) (routes : Option (RouteMap C O W)) (mux : ServeMux C O W)
      → All (λ r. r.path ≢ "") rs
      → Agree (route_map routes) mux
      → (m' : Option (RouteMap C O W)) × (mux' : ServeMux C O W) × (set_routes rs (routes, mux)
          ≡ some (m', mux'))
        × AreRouted rs (route_map routes) mux (route_map m') mux'
  unfolding set_routes first_route last_route
  set_routes_lem [] routes mux named agree =
      (routes, mux, refl, record { found = λ p q. refl; served = λ p. or_else-none _ })
  set_routes_lem (r ∷ rs) routes mux (first, named) agree =
      let (mux₁, stepped, changes) = set_route_lem r routes mux first agree in
      let agree₁ : Agree (build_handler routes r).0 mux₁ =
        step-Agree r routes mux mux₁ agree changes in
      let (m', mux', rest, set) =
        set_routes_lem rs (some (build_handler routes r).0) mux₁ named agree₁ in
      (
        m',
        mux',
        rw (stepped, set_routes) rest,
        record {
          found = λ p q.
              set.found p q
              ∙ ap (handler_after (last_route p q rs)) (find_handler-build_handler routes r p q)
              ∙ handler_after_cons p q r rs (find_handler (route_map routes) p q);
          served = λ p.
              set.served p
              ∙ ap (λ (o : Option (ServerRoute C O W)). or_else o (first_route p rs)) (changes p)
              ∙ or_else_if r (lookup p mux) (first_route p rs) (str_eq r.path p);
        },
      )
