-- ===== src/Repository/User/Laws.antt =====
-- What the calls of the user repository do to the tables.
use go_auth_refresh_template.Base.{
  String, Option, some, ◌∷◌, ◌≡◌, arith, find, update, ◌==◌, id_key, text_key, any, false,
}
use go_auth_refresh_template.Domain
use go_auth_refresh_template.Domain.{Uuid, Time}
use go_auth_refresh_template.Database.Users.{set_password, clashes}
use go_auth_refresh_template.Database.Users
use go_auth_refresh_template.World.{Env, World, ok, next_draw}
use go_auth_refresh_template.Repository.Common.Laws.{stepped}
use go_auth_refresh_template.Repository.User.{save, get_by_id, get_by_email, update_password}

module _ (env : Env) (w : World) {w' : World} where
  pub update_password-ok :
      (id : Uuid) (password : String)
      → update_password env id password w ≡ (ok tt, w')
      → w'
        ≡ stepped w
            (record (w.db) { users = update (λ u. u.id == id) (set_password password) w.db.users })
  unfolding update_password Users.update_user_password
  update_password-ok id password h = ground arith

  -- A new user clashes with none.
  pub save-ok :
      (user : Domain.User)
      → save env user w ≡ (ok tt, w')
      → (any (clashes user) w.db.users ≡ false)
        × (w' ≡ stepped w (record (w.db) { users = user ∷ w.db.users }))
  unfolding save Users.save_user
  save-ok user h = ground arith

  -- A search finds the row of the email and changes nothing.
  pub get_by_email-ok :
      (email : String) (found : Option Domain.User)
      → get_by_email env email w ≡ (ok found, w')
      → (w' ≡ next_draw w)
  unfolding get_by_email Users.get_by_email
  get_by_email-ok email found h = ground arith

  pub get_by_email_found :
      (email : String) (user : Domain.User)
      → get_by_email env email w ≡ (ok (some user), w')
      → (find (λ u. u.email == email) w.db.users ≡ some user) × (w' ≡ next_draw w)
  unfolding get_by_email Users.get_by_email
  get_by_email_found email user h = ground arith

  pub get_by_id_found :
      (id : Uuid) (user : Domain.User)
      → get_by_id env id w ≡ (ok (some user), w')
      → (find (λ u. u.id == id) w.db.users ≡ some user) × (w' ≡ next_draw w)
  unfolding get_by_id Users.get_user_by_id
  get_by_id_found id user h = ground arith
