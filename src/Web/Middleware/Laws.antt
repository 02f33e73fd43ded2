-- ===== src/Web/Middleware/Laws.antt =====
-- What the middleware of internal/web/middleware/auth.go lets through.
use text.Mathlib.Text.{starts_with}
use go_auth_refresh_template.Base.{
  String, true, some, ◌≡◌, ◌⊎◌, inl, inr, arith, refl, sym, ◌==◌, text_key, ==_iff,
}
use go_auth_refresh_template.Domain.{Config}
use go_auth_refresh_template.World.{
  Env, World, Outcome, ok, err, panics, RegisteredClaims, JwtToken, next_draw,
}
use go_auth_refresh_template.World.Laws.{outcome-cases, >>=-ok}
use go_auth_refresh_template.Service.Jwt.{
  validate_access_token, key_func, after_prefix, bearer, parsed,
}
use go_auth_refresh_template.Web.Http.{Request, Handler}
use go_auth_refresh_template.Web.Middleware.{authorize, authenticate, match_user}

module _ (env : Env) (config : Config) where
  parsed-ok :
      (o : Outcome JwtToken) (claims : RegisteredClaims)
      → parsed o ≡ ok claims
      → (token : JwtToken) × (o ≡ ok token) × (token.valid ≡ true) × (token.claims ≡ some claims)
  parsed-ok (ok token) claims h = (token, refl, ground arith, ground arith)
  parsed-ok (err e) claims h = ground arith
  parsed-ok (panics s) claims h = ground arith

  validate_access_token-ok :
      (text : String) (w : World) {claims : RegisteredClaims} {w' : World}
      → validate_access_token env config.jwt text w ≡ (ok claims, w')
      → (starts_with text bearer ≡ true)
        × (parsed
              (env.jwt_parse (env.now w.draws) (after_prefix text bearer) (key_func env config.jwt))
            ≡ ok claims)
        × (w' ≡ next_draw w)
  unfolding validate_access_token
  validate_access_token-ok text w h = ground arith

  -- What a request must carry for the next handler to run at the world `w`.
  abbrev pub Authorized : Request → World → Type 0
  Authorized r w =
      (token : JwtToken) × (claims : RegisteredClaims) × (starts_with r.authorization bearer ≡ true)
      × (env.jwt_parse (env.now w.draws) (after_prefix r.authorization bearer)
            (key_func env config.jwt)
          ≡ ok token)
      × (token.valid ≡ true)
      × (token.claims ≡ some claims)
      × (claims.subject ≡ r.path_id)

  authorize-ok :
      (r : Request) (w : World) {claims : RegisteredClaims} {w' : World}
      → authorize env config r w ≡ (ok claims, w')
      → Authorized r w × (w' ≡ next_draw w)
  unfolding authorize
  authorize-ok r w {claims} {w'} h =
      let (c, w₁, ran, rest) =
        >>=-ok (validate_access_token env config.jwt r.authorization) (match_user env config r) w
          h in
      let (prefix, read, step) = validate_access_token-ok r.authorization w ran in
      let (token, parse, valid, has) = parsed-ok _ c read in
      let same : (r.path_id == c.subject) ≡ true = ground arith in
      (
        (token, c, prefix, parse, valid, has, sym ((==_iff r.path_id c.subject).0 same)),
        ground arith,
      )

  -- Either the request carries a bearer token that the parser accepts as valid with this server's
  -- key, of the very user whose id is in the path, and the next handler answers it; or the answer
  -- does not depend on the next handler at all.
  pub authenticate_guards :
      (next other : Handler) (r : Request) (w : World)
      → (Authorized r w × (authenticate env config next r w ≡ next r (next_draw w)))
        ⊎ (authenticate env config next r w ≡ authenticate env config other r w)
  unfolding authenticate
  authenticate_guards next other r w = elim (outcome-cases (authorize env config r w).0) [
    | inl (claims, e) ↦
        let (carries, step) =
          authorize-ok r w {claims = claims} {w' = (authorize env config r w).1} (ground arith) in
        inl (carries, ground arith)
    | inr (inl (x, e)) ↦ inr (ground arith)
    | inr (inr (x, e)) ↦ inr (ground arith)
  ]
