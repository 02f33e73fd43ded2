-- ===== src/Web/Hashed.antt =====
-- What the routes of internal/web/routes/routes.go store of passwords, codes and reset tokens.
use go_auth_refresh_template.Base.{All, String, arith}
use go_auth_refresh_template.Domain.{Config}
use go_auth_refresh_template.Database.{Database}
use go_auth_refresh_template.Database.Hashed.{OnlyStores, Preserved-OnlyStores}
use go_auth_refresh_template.World.{Env, World, Outcome}
use go_auth_refresh_template.Repository.Integrity.{stored, IsPasswordHash, IsCodeHash, IsTokenHash}
use go_auth_refresh_template.Web.Payload.{Codecs}
use go_auth_refresh_template.Web.Server.{setup_routes}
use go_auth_refresh_template.Web.Mux.Served.{Served, Served-Since}
use go_auth_refresh_template.Web.Integrity.{routes-keep}

-- Nothing secret is in the tables as it is: each password of a user is one that bcrypt made a hash of,
-- and the hashes of codes and of reset tokens are HMACs with the secrets of this server.
pub record AllHashed (env : Env) (config : Config) (db : Database) : Type 0 where
  pub users : All (λ u. IsPasswordHash env u.password) db.users
  pub otp : All (λ o. IsCodeHash env config o.code_hash) db.otp
  pub password_reset_tokens :
      All (λ t. IsTokenHash env config t.token_hash) db.password_reset_tokens

module _ (env : Env) (codecs : Codecs) (config : Config) (template : String → Outcome String)
    (spec : String) where
  -- Where every stored password is a hash that bcrypt made, every stored hash of a code is the HMAC of
  -- a code with this server's secret for codes, and every stored hash of a reset token is the HMAC of a
  -- token with its secret for reset tokens, the same holds after whatever requests the server handles
  -- one after the other, whatever they are answered.
  pub routes_store_hashes :
      {w w₂ : World}
      → Served (setup_routes env codecs config template spec) w w₂
      → AllHashed env config w.db
      → AllHashed env config w₂.db
  routes_store_hashes {w} s h =
      let kept = Preserved-OnlyStores (stored env config w.draws) in
      let before : OnlyStores (stored env config w.draws) w.db = record {
        users = h.users;
        otp = h.otp;
        password_reset_tokens = h.password_reset_tokens;
      } in
      let after =
        (Served-Since w.draws (OnlyStores (stored env config w.draws))
          (routes-keep env codecs config {start = w.draws} kept template spec) s
          (record { later = omega arith; holds = before })).holds in
      record {
        users = after.users;
        otp = after.otp;
        password_reset_tokens = after.password_reset_tokens;
      }
