-- ===== src/Tests/RefreshToken.antt =====
-- The refresh-token service on the fixture.
use go_auth_refresh_template.Base.{none, some, ◌≡◌, ◌≢◌, refl, arith, ◌==◌, id_key, if◌then◌else◌}
use go_auth_refresh_template.Domain.{Uuid}
use go_auth_refresh_template.World.{World, ok, err}
use go_auth_refresh_template.World.Laws.{UnlessOk}
use go_auth_refresh_template.Database.RefreshTokens.{
  is_live, consume_refresh_token, save_refresh_token, delete_refresh_token,
}
use go_auth_refresh_template.Database.RefreshTokens.Sessions.{session}
use go_auth_refresh_template.Repository
use go_auth_refresh_template.Repository.RefreshToken.{consume, save}
use go_auth_refresh_template.Repository.Transaction.{exec}
use go_auth_refresh_template.Service.Jwt.{generate_access_token}
use go_auth_refresh_template.Service.RefreshToken.{
  refresh, rotate, rotate_for, issue, token_not_found, revoke,
}
use go_auth_refresh_template.Service.RefreshToken.Laws.{minted}
use go_auth_refresh_template.Service.RefreshToken.Rotation.{
  refresh_rotates, refresh_once, refresh_atomic, revoke_ends,
}
use go_auth_refresh_template.Base.{update}
use go_auth_refresh_template.Database.RefreshTokens.{expire}
use go_auth_refresh_template.Repository.Common.Laws.{stepped}
use go_auth_refresh_template.Repository.Transaction.{finish}
use go_auth_refresh_template.Repository.Transaction.Overlap.{exec_around}
use go_auth_refresh_template.Service.RefreshToken.Overtaken.{refresh_overtaken}
use go_auth_refresh_template.World.{next_draw}
use go_auth_refresh_template.Service.Auth.LoggedOut.{IsRefused}
use go_auth_refresh_template.Web.LoggedOut.Ended.{refreshed_once_for_ever}
use go_auth_refresh_template.Tests.Web.{codecs, logged_in_after, then_logs_in}
use go_auth_refresh_template.Tests.Fixture.{env, config, start, id_text, parse-id_text}

run_refresh : Unit {0}
unfolding refresh exec rotate rotate_for issue consume consume_refresh_token save save_refresh_token
    generate_access_token
run_refresh = tt

abbrev after_refresh : World
after_refresh = (refresh env config "u0000000" start).1

refreshes : (refresh env config "u0000000" start).0 ≡ ok (id_text 1, id_text 22)
unfolding run_refresh
refreshes = refl

refresh_rotates_example :
    (id user : Uuid) × (env.uuid_parse "u0000000" ≡ some id)
    × (session 1000 start.db.refresh_tokens id ≡ some user)
    × (id_text 22 ≡ id_text 22)
    × (id ≢ 22)
    × (session 2000 after_refresh.db.refresh_tokens 22 ≡ (
        if is_live 2000 22 (minted env config user 2)
        then some user
        else if id == 22
        then none
        else session 2000 start.db.refresh_tokens 22))
    × (after_refresh.db ≡ record (start.db) { refresh_tokens = after_refresh.db.refresh_tokens })
unfolding run_refresh
refresh_rotates_example =
    refresh_rotates env config "u0000000" start 2000 22 {access = id_text 1} {new = id_text 22}
      {w' = after_refresh} parse-id_text refl (omega arith)

refresh_once_example :
    ((refresh env config "u0000000" after_refresh).0 ≡ err token_not_found)
    × ((refresh env config "u0000000" after_refresh).1.db ≡ after_refresh.db)
unfolding run_refresh
refresh_once_example =
    refresh_once env config "u0000000" start after_refresh {access = id_text 1} {new = id_text 22}
      {w' = after_refresh} refl refl (omega arith) refl refl

refresh_atomic_example :
    UnlessOk (refresh env config "u0" start).0 ((refresh env config "u0" start).1.db ≡ start.db)
refresh_atomic_example = refresh_atomic env config "u0" start

abbrev after_revoke : World
after_revoke = (revoke env config "u0000000" start).1

revoke_ends_example :
    (id : Uuid) × (env.uuid_parse "u0000000" ≡ some id)
    × (session 2000 after_revoke.db.refresh_tokens 7
        ≡ (if id == 7 then none else session 2000 start.db.refresh_tokens 7))
    × (after_revoke.db ≡ record (start.db) { refresh_tokens = after_revoke.db.refresh_tokens })
unfolding revoke delete_refresh_token Repository.RefreshToken.delete
revoke_ends_example = revoke_ends env config "u0000000" start 2000 7 {w' = after_revoke} refl

abbrev refreshed_first : World
refreshed_first = (refresh env config "u0000000" (next_draw start)).1

abbrev refresh_first : World → World
refresh_first w = (refresh env config "u0000000" w).1

run_overlap : Unit {0}
unfolding run_refresh exec_around
run_overlap = tt

first_refresh : (refresh env config "u0000000" (next_draw start)).0 ≡ ok (id_text 1, id_text 23)
unfolding run_refresh
first_refresh = refl

-- Both of two overlapping refreshes with one token succeed.
second_refresh :
    (exec_around env (rotate env config 7) refresh_first start).0 ≡ ok (id_text 1, id_text 32)
unfolding run_overlap
second_refresh = refl

refresh_overtaken_example :
    (user : Uuid) × (session 1001 start.db.refresh_tokens 7 ≡ some user)
    × (session 1000 refreshed_first.db.refresh_tokens 7 ≡ some user)
    × (exec_around env (rotate env config 7) refresh_first start
        ≡ finish env refreshed_first (
            rotate_for env config (id_text user) (
              stepped
                (record refreshed_first { tx_now = some 1000 })
                (record (refreshed_first.db) {
                  refresh_tokens =
                      update (is_live 1000 7) (expire 1000) refreshed_first.db.refresh_tokens;
                }))))
unfolding run_refresh
refresh_overtaken_example =
    refresh_overtaken env config "u0000000" start 7 {access = id_text 1} {new = id_text 23}
      {w' = refreshed_first} (tt, tt) (parse-id_text 7) refl refl (omega arith) refl

abbrev after_login : World
after_login = logged_in_after (next_draw after_refresh)

refreshed_once_for_ever_example :
    (session 2000 after_login.db.refresh_tokens 7 ≡ none)
    × IsRefused env config "u0000000" after_login
unfolding run_refresh
refreshed_once_for_ever_example =
    refreshed_once_for_ever env codecs config (λ page. ok page) "openapi" "u0000000" 7 start
      after_login 2000 {access = id_text 1} {new = id_text 22} {w' = after_refresh}
      (parse-id_text 7) refl (λ n later same. omega arith) (then_logs_in after_refresh)
      (omega arith) (omega arith) refl refl
