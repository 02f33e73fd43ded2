-- ===== src/Database/Users.antt =====
-- The statements of internal/infra/database/sqlc/users.sql.go on the table `users`.
pub mod Laws
use Prim.Native.String.{count}
use go_auth_refresh_template.Base.{
  String, Bool, Option, none, some, ◌==◌, id_key, text_key, ◌||◌, ◌&&◌, ◌∷◌, any, find, update, leb,
  not, if◌then◌else◌,
}
use go_auth_refresh_template.Domain.{Uuid, User}
use go_auth_refresh_template.Database.{
  Database, Reply, done, refused, unique_violation, string_data_right_truncation, err_no_rows,
}

-- The values of the UNIQUE columns `id`, `email` and `username` that the row shares with another.
abbrev pub clashes : User → User → Bool
clashes row u = u.id == row.id || u.email == row.email || u.username == row.username

-- `VARCHAR(255)` counts characters.
abbrev pub fits_varchar : String → Bool
fits_varchar s = leb (count s) 255

unfoldable pub save_user : User → Database → Reply (Unit {0})
save_user row db =
    if not (fits_varchar row.email && fits_varchar row.password)
    then refused string_data_right_truncation
    else if any (clashes row) db.users
    then refused unique_violation
    else done tt (record db { users = row ∷ db.users })

abbrev pub answer_one : {A : Type 0} → Option A → Database → Reply A
answer_one none db = refused err_no_rows
answer_one (some row) db = done row db

unfoldable pub get_by_email : String → Database → Reply User
get_by_email email db = answer_one (find (λ u. u.email == email) db.users) db

unfoldable pub get_user_by_id : Uuid → Database → Reply User
get_user_by_id id db = answer_one (find (λ u. u.id == id) db.users) db

abbrev pub set_password : String → User → User
set_password password u = record u { password = password }

unfoldable pub update_user_password : Uuid → String → Database → Reply (Unit {0})
update_user_password id password db =
    if not (fits_varchar password)
    then refused string_data_right_truncation
    else done tt (record db { users = update (λ u. u.id == id) (set_password password) db.users })
