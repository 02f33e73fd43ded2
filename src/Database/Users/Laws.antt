-- ===== src/Database/Users/Laws.antt =====
-- The searches for a user, where ids, emails and usernames are unique.
use go_auth_refresh_template.Base.{
  String, some, List, [], ◌∷◌, ◌≡◌, arith, find, find-none, Distinct, ◌==◌, ==_self, id_key,
  text_key,
}
use go_auth_refresh_template.Domain.{User}
use go_auth_refresh_template.Database.Users.{clashes}

-- The user of an email is the one of its id.
pub find-id :
    (email : String) (us : List User) {u : User}
    → Distinct clashes us
    → find (λ x. x.email == email) us ≡ some u
    → find (λ x. x.id == u.id) us ≡ some u
find-id email [] d h = ground arith
find-id email (v ∷ us) {u} d h = ground (
  arith,
  find-id email us {u = u} d.1,
  find-none (λ x. x.email == email) (clashes v) us {x = u} d.0,
  ==_self u.id,
)
