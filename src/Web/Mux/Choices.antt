-- ===== src/Web/Mux/Choices.antt =====
-- The route that the mux of internal/web/server/server.go runs for a request is one of its routes.
use go_auth_refresh_template.Base.{
  String, true, some, none, List, [], ◌∷◌, ◌≡◌, ◌⊎◌, refl, arith, All, inl, inr, Option-cases,
  Bool-cases, ◌==◌, ◌&&◌, text_key, id_key,
}
use go_auth_refresh_template.World.{Action}
use go_auth_refresh_template.Web.Server.{Route}
use go_auth_refresh_template.Web.Mux.{
  best, best_or_get, is_more_specific, choose, Choice, found, redirect, method_not_allowed,
  not_found, run_choice, dispatch, matches, with_path_value,
}
use go_auth_refresh_template.Web.Http.{Request, Response}

choice-cases :
    (r : Request) (c : Choice) → ((route : Route) × (c ≡ found route)) ⊎ (run_choice r c ≡ none)
choice-cases r (found route) = inl (route, refl)
choice-cases r (redirect path) = inr refl
choice-cases r method_not_allowed = inr refl
choice-cases r not_found = inr refl

module _ (P : Route → Type 0) where
  best-All :
      (routes : List Route) (method path : String) {route : Route}
      → All P routes
      → best routes method path ≡ some route
      → P route × (matches route.pattern path ≡ true)
  best-All [] method path a h = ground arith
  best-All (r ∷ rs) method path {route} (k, ks) h =
      elim (Bool-cases (r.method == method && matches r.pattern path)) [
        | inr x ↦ best-All rs method path {route = route} ks (ground arith)
        | inl x ↦ elim (Option-cases (best rs method path)) [
          | inl y ↦ let is : r ≡ route = ground arith in (rw is at k, ground arith)
          | inr (s, y) ↦ elim (Bool-cases (is_more_specific r.pattern s.pattern)) [
            | inl z ↦ let is : r ≡ route = ground arith in (rw is at k, ground arith)
            | inr z ↦
                let is : s ≡ route = ground arith in
                rw is at (best-All rs method path {route = s} ks y)
          ]
        ]
      ]

  -- The route that is found is one of them, and is for the path.
  choose-All :
      (routes : List Route) (method path : String) {route : Route}
      → All P routes
      → choose routes method path ≡ found route
      → P route × (matches route.pattern path ≡ true)
  choose-All routes method path {route} a h =
      let is : best_or_get routes method path ≡ some route = ground arith in
      elim (Option-cases (best routes method path)) [
        | inl x ↦ best-All routes "GET" path {route = route} a (ground arith)
        | inr (r, x) ↦ best-All routes method path {route = route} a (ground arith)
      ]

  pub dispatch-All :
      (routes : List Route) (r : Request) {m : Action Response}
      → All P routes
      → dispatch routes r ≡ some m
      → (route : Route) × P route
        × (matches route.pattern r.path ≡ true)
        × (m ≡ route.handler (with_path_value route.pattern r))
  dispatch-All routes r {m} a h = elim (choice-cases r (choose routes r.method r.path)) [
    | inl (route, e) ↦
        let (k, is_for) = choose-All routes r.method r.path {route = route} a e in
        (route, k, is_for, ground arith)
    | inr e ↦ cc
  ]
