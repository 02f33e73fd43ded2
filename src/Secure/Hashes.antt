-- ===== src/Secure/Hashes.antt =====
-- What a comparison of hashes says, of pkg/secure/otp.go and pkg/secure/reset_token.go.
use Prim.Native.Char.{Char, code}
use text.Mathlib.TextLemmas.{nil≢cons, cons≢nil, head-eq_of_cons-eq, tail-eq_of_cons-eq}
use go_auth_refresh_template.Base.{
  ℕ, ◌-◌, ◌/◌, ◌%◌, ◌<◌, String, true, List, [], ◌∷◌, ◌≡◌, ◌↔◌, refl, sym, ap, ◌∙◌, arith, All, ltb,
  nat_eq, nat_eq_iff, ==_iff, text_key, if◌then◌else◌, all_below, all_below-true,
}
use go_auth_refresh_template.World.{Env}
use go_auth_refresh_template.Secure.{hash_otp, verify_otp, hash_reset_token, verify_reset_token}
use go_auth_refresh_template.Secure.Format.{digit_char, encode_to_string}

-- The value of a hexadecimal digit.
abbrev hex_value : Char → ℕ
hex_value c = if ltb (code c) 58 then code c - 48 else code c - 87

digits_table : all_below 16 (λ n. nat_eq (hex_value (digit_char n)) n) ≡ true
unfolding all_below
digits_table = refl

hex_value-digit_char : (n : ℕ) → n < 16 → hex_value (digit_char n) ≡ n
hex_value-digit_char n h =
    let t = all_below-true 16 (λ k. nat_eq (hex_value (digit_char k)) k) n digits_table h in
    ground (arith, nat_eq_iff (hex_value (digit_char n)) n, t)

digit_char-injective : (m n : ℕ) → m < 16 → n < 16 → digit_char m ≡ digit_char n → m ≡ n
digit_char-injective m n hm hn e =
    sym (hex_value-digit_char m hm) ∙ ap hex_value e ∙ hex_value-digit_char n hn

abbrev pub AreBytes : List ℕ → Type 0
AreBytes = All (λ b. b < 256)

-- Two bytes with the same two digits are the same.
byte_of_digits :
    (b c : ℕ)
    → b < 256
    → c < 256
    → digit_char (b / 16) ≡ digit_char (c / 16)
    → digit_char (b % 16) ≡ digit_char (c % 16)
    → b ≡ c
byte_of_digits b c hb hc high low =
    let h = digit_char-injective (b / 16) (c / 16) (omega arith) (omega arith) high in
    let l = digit_char-injective (b % 16) (c % 16) (omega arith) (omega arith) low in omega arith

encode_to_string-injective :
    (bs cs : List ℕ)
    → AreBytes bs
    → AreBytes cs
    → encode_to_string bs ≡ encode_to_string cs
    → bs ≡ cs
unfolding encode_to_string
encode_to_string-injective [] [] hb hc e = refl
encode_to_string-injective [] (c ∷ cs) hb hc e = absurd (nil≢cons e)
encode_to_string-injective (b ∷ bs) [] hb hc e = absurd (cons≢nil e)
encode_to_string-injective (b ∷ bs) (c ∷ cs) (hb, hbs) (hc, hcs) e =
    let rest = tail-eq_of_cons-eq e in
    let same_byte : b ≡ c =
      byte_of_digits b c hb hc (head-eq_of_cons-eq e) (head-eq_of_cons-eq rest) in
    let same_rest : bs ≡ cs = encode_to_string-injective bs cs hbs hcs (tail-eq_of_cons-eq rest) in
    cc

module _ (env : Env) where
  -- Where HMAC-SHA256 answers bytes, a code is verified against the hash of another, and a reset token
  -- against the hash of another, just where the two have the same HMAC with the secret: the
  -- hexadecimal form in which the hashes are stored and compared confuses no two of them.
  pub verify_otp_iff :
      (secret given stored : String)
      → ((key message : String) → AreBytes (env.hmac_sha256 key message))
      → ((verify_otp env given (hash_otp env stored secret) secret ≡ true)
          ↔ (env.hmac_sha256 secret given ≡ env.hmac_sha256 secret stored))
        × ((verify_reset_token env given (hash_reset_token env stored secret) secret ≡ true)
            ↔ (env.hmac_sha256 secret given ≡ env.hmac_sha256 secret stored))
  unfolding verify_otp verify_reset_token hash_otp hash_reset_token
  verify_otp_iff secret given stored bytes =
      let a = env.hmac_sha256 secret given in
      let b = env.hmac_sha256 secret stored in
      let test = ==_iff (encode_to_string a) (encode_to_string b) in
      let back = encode_to_string-injective a b (bytes secret given) (bytes secret stored) in
      (
        ((λ h. back (test.0 h)), (λ e. test.1 (ap encode_to_string e))),
        ((λ h. back (test.0 h)), (λ e. test.1 (ap encode_to_string e))),
      )
