-- ===== src/Web/LoggedOut.antt =====
-- What `Logout` of internal/web/handler/auth.go leaves to the requests after it.
pub mod Ended
use go_auth_refresh_template.Base.{==_self, ℕ, ◌≤◌, String, none, some, ◌≡◌, ◌≢◌, arith, id_key}
use go_auth_refresh_template.Domain.{Uuid, Time, Config}
use go_auth_refresh_template.Database.RefreshTokens.Sessions.{session, session-find}
use go_auth_refresh_template.Database.RefreshTokens.Dead.{
  IsDead, AllDead-session, session-AllDead, Preserved-IsDead,
}
use go_auth_refresh_template.World.{Env, World, Outcome, ok}
use go_auth_refresh_template.World.Invariants.{Since}
use go_auth_refresh_template.Repository.Integrity.{stored}
use go_auth_refresh_template.Service
use go_auth_refresh_template.Service.RefreshToken.Laws.{refresh-ok}
use go_auth_refresh_template.Web.Http.{Request, Response, empty}
use go_auth_refresh_template.Web.Cookie.{get_cookie}
use go_auth_refresh_template.Web.Payload.{Codecs}
use go_auth_refresh_template.Web.Handler
use go_auth_refresh_template.Web.Server.{setup_routes}
use go_auth_refresh_template.Web.Mux.Served.{Served, Served-Since}
use go_auth_refresh_template.Web.Integrity.{routes-keep}
use go_auth_refresh_template.Web.Session.{logout_ends_session}

module _ (env : Env) (codecs : Codecs) (config : Config) where
  -- A refresh with a token that has no session does not succeed.
  refresh_dead :
      (text : String) (id : Uuid) (w : World) {access new : String} {w' : World}
      → env.uuid_parse text ≡ some id
      → session (env.db_now w.draws) w.db.refresh_tokens id ≡ none
      → Service.RefreshToken.refresh env config text w ≢ (ok (access, new), w')
  refresh_dead text id w {access} {new} {w'} parsed dead h =
      let (j, names, r) = refresh-ok env config text w {access = access} {new = new} {w' = w'} h in
      let live = session-find (env.db_now w.draws) j w.db.refresh_tokens {t = r.old} r.live in
      ground arith

  module _ (template : String → Outcome String) (spec : String) where
    -- No request revives a token that is dead, where `uuid.New` does not make its id again.
    pub Served-IsDead :
        (id : Uuid) (limit : Time) {w w₂ : World}
        → ((n : ℕ) → w.draws ≤ n → env.uuid_new n ≢ id)
        → Served (setup_routes env codecs config template spec) w w₂
        → IsDead limit id w.db
        → IsDead limit id w₂.db
    Served-IsDead id limit {w} other s dead =
        let kept =
          Preserved-IsDead (stored env config w.draws) limit id
            (λ j (n, later, is) e. other n later (ground arith)) in
        (Served-Since w.draws (IsDead limit id)
          (routes-keep env codecs config {start = w.draws} kept template spec) s
          (record { later = omega arith; holds = dead })).holds

    -- After a logout with a cookie that is answered without a body, whatever requests the server handles
    -- one after the other: the refresh token that the cookie names has no session at any time, and a
    -- refresh with it gives no tokens, where `uuid.New` does not make its id again from then on.
    pub logged_out_for_ever :
        (r : Request) (w w₂ : World) (t : Time) (id : Uuid) {value : String} {response : Response}
        {w' w₃ : World} {access new : String}
        → get_cookie r ≡ some value
        → Handler.logout env codecs config r w ≡ (ok response, w')
        → response.body ≡ empty
        → env.uuid_parse value ≡ some id
        → ((n : ℕ) → w'.draws ≤ n → env.uuid_new n ≢ id)
        → Served (setup_routes env codecs config template spec) w' w₂
        → (session t w₂.db.refresh_tokens id ≡ none)
          × (Service.RefreshToken.refresh env config value w₂ ≢ (ok (access, new), w₃))
    logged_out_for_ever r w w₂ t id {value} {response} {w'} {w₃} {access} {new} sent h none_left
          parsed other s =
        let (j, cookie, names, ended, same, status, cookies, name, age) =
          logout_ends_session env codecs config r w 0 id {value = value} {response = response}
            {w' = w'} sent h none_left in
        let dead : session 0 w'.db.refresh_tokens id ≡ none = ground (arith, ==_self id) in
        let still_dead =
          Served-IsDead id 0 other s (session-AllDead 0 id w'.db.refresh_tokens dead) in
        let without =
          λ (t : Time). AllDead-session 0 t id w₂.db.refresh_tokens (omega arith) still_dead in
        (
          without t,
          refresh_dead value id w₂ {access = access} {new = new} {w' = w₃} parsed
              (without (env.db_now w₂.draws)),
        )
