-- ===== src/Database/ResetTokens/Unique.antt =====
-- What the consumption of a reset token leaves where token hashes are unique.
use go_auth_refresh_template.Base.{
  String, none, some, false, List, [], ◌∷◌, ◌≡◌, refl, arith, any, find, update, text_key, id_key,
  ==_iff, Distinct,
}
use go_auth_refresh_template.Domain.{Time}
use go_auth_refresh_template.Database.{PasswordResetToken}
use go_auth_refresh_template.Database.Integrity.{same_reset}
use go_auth_refresh_template.Database.ResetTokens.{is_valid, mark_used}

module _ (now other : Time) (hash : String) where
  find-other_hash :
      (t : PasswordResetToken) (ts : List PasswordResetToken)
      → any (same_reset t) ts ≡ false
      → t.token_hash ≡ hash
      → find (is_valid other hash) (update (is_valid now hash) (mark_used now) ts) ≡ none
  find-other_hash t [] h e = refl
  find-other_hash t (s ∷ ts) h e =
      ground
        (arith, find-other_hash t ts, ==_iff s.token_hash hash, ==_iff s.token_hash t.token_hash)

  find-absent :
      (t : PasswordResetToken) (ts : List PasswordResetToken)
      → any (same_reset t) ts ≡ false
      → t.token_hash ≡ hash
      → find (is_valid now hash) ts ≡ none
  find-absent t [] h e = refl
  find-absent t (s ∷ ts) h e =
      ground (arith, find-absent t ts, ==_iff s.token_hash hash, ==_iff s.token_hash t.token_hash)

  -- Where hashes are unique, no token of the hash is valid after its consumption, at any time.
  pub find-update_used_any :
      (ts : List PasswordResetToken) {t : PasswordResetToken}
      → Distinct same_reset ts
      → find (is_valid now hash) ts ≡ some t
      → find (is_valid other hash) (update (is_valid now hash) (mark_used now) ts) ≡ none
  find-update_used_any [] d h = refl
  find-update_used_any (s ∷ ts) {t} d h = ground (
    arith,
    find-update_used_any ts {t = t} d.1,
    find-other_hash s ts d.0,
    ==_iff s.token_hash hash,
    find-absent s ts d.0,
  )
