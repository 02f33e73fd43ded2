-- ===== src/Database/RefreshTokens/Sessions.antt =====
-- The abstract view of the table `refresh_tokens`: at each time a map from the id of a refresh
-- token to the user whom it authenticates. Order, expired rows and time stamps are forgotten.
use go_auth_refresh_template.Base.{
  Bool-cases, inl, inr, Bool, false, ◌≤◌, Option, none, some, List, [], ◌∷◌, ◌≡◌, ◌≢◌, refl, arith,
  ◌==◌, id_key, find, update, delete, any, All, if◌then◌else◌,
}
use go_auth_refresh_template.Domain.{Uuid, Time, RefreshToken}
use go_auth_refresh_template.Database.RefreshTokens.{is_live, expire}

-- The user of the first live row of the id.
abbrev pub session : Time → List RefreshToken → Uuid → Option Uuid
session now [] id = none
session now (t ∷ ts) id = if is_live now id t then some t.user_id else session now ts id

-- No two rows have the same id.
abbrev pub DistinctIds : List RefreshToken → Type 0
DistinctIds [] = Unit
DistinctIds (t ∷ ts) = All (λ s. s.id ≢ t.id) ts × DistinctIds ts

pub session-find :
    (now : Time) (id : Uuid) (ts : List RefreshToken) {t : RefreshToken}
    → find (is_live now id) ts ≡ some t
    → session now ts id ≡ some t.user_id
session-find now id [] h = cc
session-find now id (t ∷ ts) {t = found} h = ground (arith, session-find now id ts {t = found})

-- The consumption of a token ends its session, from then on, and no other.
pub session-update :
    (now later : Time) (id j : Uuid) (ts : List RefreshToken)
    → now ≤ later
    → session later (update (is_live now id) (expire now) ts) j
      ≡ (if id == j then none else session later ts j)
session-update now later id j [] h = ground arith
session-update now later id j (t ∷ ts) h = ground (arith, session-update now later id j ts h)

-- So does the deletion of a token.
pub session-delete :
    (now : Time) (id j : Uuid) (ts : List RefreshToken)
    → session now (delete (λ t. t.id == id) ts) j ≡ (if id == j then none else session now ts j)
session-delete now id j [] = ground arith
session-delete now id j (t ∷ ts) = ground (arith, session-delete now id j ts)

-- The sessions without those of a user.
abbrev pub without_user : Uuid → Option Uuid → Option Uuid
without_user user none = none
without_user user (some owner) = if owner == user then none else some owner

session-fresh :
    (now : Time) (id j : Uuid) (p : RefreshToken → Bool) (ts : List RefreshToken)
    → id ≡ j
    → All (λ s. s.id ≢ id) ts
    → session now (delete p ts) j ≡ none
session-fresh now id j p [] e h = refl
session-fresh now id j p (t ∷ ts) e h = ground (arith, session-fresh now id j p ts e h.1)

-- The deletion of a user's tokens ends that user's sessions and no other.
pub session-delete_user :
    (now : Time) (user j : Uuid) (ts : List RefreshToken)
    → DistinctIds ts
    → session now (delete (λ t. t.user_id == user) ts) j ≡ without_user user (session now ts j)
session-delete_user now user j [] h = refl
session-delete_user now user j (t ∷ ts) h = ground (
  arith,
  session-delete_user now user j ts h.1,
  session-fresh now t.id j (λ s. s.user_id == user) ts,
)

-- An id in use is not new.
pub find-any :
    (now : Time) (id new : Uuid) (p : RefreshToken → Bool) (ts : List RefreshToken)
    {t : RefreshToken}
    → find (is_live now id) ts ≡ some t
    → any (λ s. s.id == new) (update p (expire now) ts) ≡ false
    → id ≢ new
find-any now id new p [] h e = cc
find-any now id new p (s ∷ ts) {t} h e = ground (arith, find-any now id new p ts {t = t})

-- The row of a session.
pub find-session :
    (now : Time) (id user : Uuid) (ts : List RefreshToken)
    → session now ts id ≡ some user
    → (t : RefreshToken) × (find (is_live now id) ts ≡ some t) × (t.user_id ≡ user)
find-session now id user [] h = ground arith
find-session now id user (t ∷ ts) h = elim (Bool-cases (is_live now id t)) [
  | inl e ↦ (t, ground arith, ground arith)
  | inr e ↦
      let (row, found, owner) = find-session now id user ts (ground arith) in
      (row, ground arith, owner)
]
