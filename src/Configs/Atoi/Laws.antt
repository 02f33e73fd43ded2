-- ===== src/Configs/Atoi/Laws.antt =====
-- What is printed in decimal is read back.
use Prim.Native.Char.{Char, code}
use Prim.Native.Nat.{zero, suc}
use go_auth_refresh_template.Base.{
  ℕ, ◌+◌, ◌-◌, ◌*◌, ◌/◌, ◌%◌, ◌^◌, ◌<◌, ℤ, pos, negsuc, ◌≤ℤ◌, String, true, some, ◌≡◌, refl, ap,
  ◌∙◌, arith, inl, inr, Option-cases, Bool-cases, ltb, nat_eq, ◌&&◌, all_below, all_below-true,
  Bool, nat_eq_iff,
}
use go_auth_refresh_template.World.{ok}
use go_auth_refresh_template.Secure.Format.{digit_char, decimal, decimal_from}
use go_auth_refresh_template.Configs.Atoi.{is_digit, read_digits, read_decimal, atoi, itoa}

-- The character of a digit below ten is that digit.
abbrev is_digit_of : ℕ → Bool
is_digit_of n = is_digit (code (digit_char n)) && nat_eq (code (digit_char n)) (n + 48)

digits_table : all_below 10 is_digit_of ≡ true
unfolding all_below
digits_table = refl

pub digit_char-code :
    (n : ℕ) → n < 10 → (is_digit (code (digit_char n)) ≡ true) × (code (digit_char n) ≡ n + 48)
digit_char-code n h =
    let t : is_digit_of n ≡ true = all_below-true 10 is_digit_of n digits_table h in
    ground (arith, nat_eq_iff (code (digit_char n)) (n + 48), t)

pub read_digits-digit_char :
    (m n : ℕ) (s : String)
    → n < 10
    → read_digits m (String.◌∷◌ (digit_char n) s) ≡ read_digits (m * 10 + n) s
unfolding read_digits
read_digits-digit_char m n s h =
    let (digit, value) = digit_char-code n h in
    let same : m * 10 + (code (digit_char n) - 48) ≡ m * 10 + n = omega (arith, value) in
    rw (digit, same) refl

pub read_digits-decimal_from :
    (fuel n : ℕ) (s : String) → n < fuel → read_digits 0 (decimal_from fuel n s) ≡ read_digits n s
unfolding decimal_from
read_digits-decimal_from zero n s h = absurd (omega arith)
read_digits-decimal_from (suc fuel) n s h = elim (Bool-cases (ltb n 10)) [
  | inl e ↦
      rw e (read_digits-digit_char 0 n s (ground arith) ∙ ap (λ k. read_digits k s) (omega arith))
  | inr e ↦ rw e (
      read_digits-decimal_from fuel (n / 10) (String.◌∷◌ (digit_char (n % 10)) s) (ground arith)
      ∙ read_digits-digit_char (n / 10) (n % 10) s (omega arith)
      ∙ ap (λ k. read_digits k s) (omega arith))
]

-- A printed number starts with a digit.
decimal_from-head :
    (fuel n : ℕ) (s : String)
    → (c : Char) × (t : String) × (decimal_from (suc fuel) n s ≡ String.◌∷◌ c t)
      × (is_digit (code c) ≡ true)
unfolding decimal_from
decimal_from-head zero n s = elim (Bool-cases (ltb n 10)) [
  | inl e ↦ (digit_char n, s, rw e refl, (digit_char-code n (ground arith)).0)
  | inr e ↦ (digit_char (n % 10), s, rw e refl, (digit_char-code (n % 10) (omega arith)).0)
]
decimal_from-head (suc fuel) n s = elim (Bool-cases (ltb n 10)) [
  | inl e ↦ (digit_char n, s, rw e refl, (digit_char-code n (ground arith)).0)
  | inr e ↦
      let (c, t, is, digit) =
        decimal_from-head fuel (n / 10) (String.◌∷◌ (digit_char (n % 10)) s) in
      (c, t, rw e is, digit)
]

decimal-head :
    (n : ℕ) → (c : Char) × (t : String) × (decimal n ≡ String.◌∷◌ c t) × (is_digit (code c) ≡ true)
unfolding decimal
decimal-head n = decimal_from-head n n ""

pub read_digits-decimal : (n : ℕ) → read_digits 0 (decimal n) ≡ some n
unfolding decimal read_digits
read_digits-decimal n = read_digits-decimal_from (suc n) n "" (omega arith)

pub read_decimal-decimal : (n : ℕ) → read_decimal (decimal n) ≡ some n
unfolding read_decimal
read_decimal-decimal n =
    let (c, t, is, _) = decimal-head n in let read = read_digits-decimal n in rw is (rw is at read)

atoi-digit :
    (c : Char) (t : String) (n : ℕ)
    → is_digit (code c) ≡ true
    → read_decimal (String.◌∷◌ c t) ≡ some n
    → n < 2 ^ 63
    → atoi (String.◌∷◌ c t) ≡ ok (pos n)
unfolding atoi
atoi-digit c t n digit read fits = ground arith

atoi-minus :
    (s : String) (n : ℕ)
    → read_decimal s ≡ some (suc n)
    → n < 2 ^ 63
    → atoi (String.◌∷◌ "-" s) ≡ ok (negsuc n)
unfolding atoi
atoi-minus s n read fits = ground arith

-- A 64-bit integer that is printed is read back.
pub atoi-itoa : (z : ℤ) → negsuc (2 ^ 63 - 1) ≤ℤ z → z ≤ℤ pos (2 ^ 63 - 1) → atoi (itoa z) ≡ ok z
unfolding itoa
atoi-itoa (pos n) lo hi =
    let (c, t, is, digit) = decimal-head n in
    let read = read_decimal-decimal n in
    rw is (atoi-digit c t n digit (rw is at read) (omega arith))
atoi-itoa (negsuc n) lo hi =
    atoi-minus (decimal (suc n)) n (read_decimal-decimal (suc n)) (omega arith)

atoi-signed :
    (c : Char) (s : String) {z : ℤ} → atoi (String.◌∷◌ c s) ≡ ok z → negsuc (2 ^ 63 - 1) ≤ℤ z
unfolding atoi
atoi-signed c s h = elim (Option-cases (read_decimal s)) [
  | inl e ↦ ground arith
  | inr (zero, e) ↦ ground arith
  | inr (suc n, e) ↦ ground arith
]

-- What is read is a 64-bit integer.
pub atoi-ge : (s : String) {z : ℤ} → atoi s ≡ ok z → negsuc (2 ^ 63 - 1) ≤ℤ z
unfolding atoi
atoi-ge String.[] h = ground arith
atoi-ge (String.◌∷◌ c s) {z} h = atoi-signed c s {z = z} h
