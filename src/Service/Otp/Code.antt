-- ===== src/Service/Otp/Code.antt =====
-- The codes that `SendCode` of internal/service/otp.go draws and prints.
use Prim.Native.String.{count}
use text.Mathlib.TextLemmas.{length-nil, length-cons}
use go_auth_refresh_template.Base.{
  ℕ, zero, suc, ◌+◌, ◌-◌, ◌*◌, ◌/◌, ◌%◌, ◌<◌, ◌≤◌, ℤ, pos, negsuc, ◌≤ℤ◌, String, true, some, ◌≡◌,
  refl, ◌∙◌, arith, inl, inr, Bool-cases, ltb, suc_ℤ,
}
use go_auth_refresh_template.Domain.{Config}
use go_auth_refresh_template.World.{Env, World, ok}
use go_auth_refresh_template.Secure.Format.{
  digit_char, decimal, decimal_from, pad_zeros, sprintf_06d,
}
use go_auth_refresh_template.Configs.Atoi.{read_digits, read_decimal}
use go_auth_refresh_template.Configs.Atoi.Laws.{read_digits-digit_char, read_digits-decimal}
use go_auth_refresh_template.Service.Otp.{random_code}

-- 10 ^ k
tenfold : ℕ → ℕ
tenfold zero = 1
tenfold (suc k) = 10 * tenfold k

-- A number below 10 ^ (k + 1) prints to at most k + 1 digits.
count-decimal_from :
    (k fuel n : ℕ) (s : String)
    → n < tenfold (suc k)
    → n < fuel
    → count (decimal_from fuel n s) ≤ suc k + count s
unfolding decimal_from tenfold
count-decimal_from k zero n s small h = absurd (omega arith)
count-decimal_from zero (suc fuel) n s small h =
    let e : ltb n 10 ≡ true = ground arith in rw (e, length-cons (digit_char n) s) (omega arith)
count-decimal_from (suc k) (suc fuel) n s small h = elim (Bool-cases (ltb n 10)) [
  | inl e ↦ rw (e, length-cons (digit_char n) s) (omega arith)
  | inr e ↦ rw e (
      omega (
        arith,
        count-decimal_from k fuel (n / 10) (String.◌∷◌ (digit_char (n % 10)) s) (omega arith)
            (ground arith),
        length-cons (digit_char (n % 10)) s,
      ))
]

count-pad_zeros : (k : ℕ) (s : String) → count (pad_zeros k s) ≡ k + count s
unfolding pad_zeros
count-pad_zeros zero s = omega arith
count-pad_zeros (suc k) s = omega (arith, length-cons "0" (pad_zeros k s), count-pad_zeros k s)

read_digits-pad_zeros : (k : ℕ) (s : String) → read_digits 0 (pad_zeros k s) ≡ read_digits 0 s
unfolding pad_zeros
read_digits-pad_zeros zero s = refl
read_digits-pad_zeros (suc k) s =
    read_digits-digit_char 0 0 (pad_zeros k s) (omega arith) ∙ read_digits-pad_zeros k s

count-decimal : (n : ℕ) → n < 1000000 → count (decimal n) ≤ 6
unfolding decimal tenfold
count-decimal n h =
    omega (arith, count-decimal_from 5 (suc n) n "" (omega arith) (omega arith), length-nil)

read_decimal-longer : (s : String) (k : ℕ) → count s ≡ suc k → read_decimal s ≡ read_digits 0 s
unfolding read_decimal
read_decimal-longer String.[] k h = absurd (omega (arith, length-nil))
read_decimal-longer (String.◌∷◌ c s) k h = refl

pub sprintf_06d-read :
    (n : ℕ) → n < 1000000 → (count (sprintf_06d n) ≡ 6) × (read_decimal (sprintf_06d n) ≡ some n)
unfolding sprintf_06d
sprintf_06d-read n h =
    let width : count (pad_zeros (6 - count (decimal n)) (decimal n)) ≡ 6 =
      omega (arith, count-pad_zeros (6 - count (decimal n)) (decimal n), count-decimal n h) in
    (
      width,
      read_decimal-longer _ 5 width
          ∙ read_digits-pad_zeros (6 - count (decimal n)) (decimal n)
          ∙ read_digits-decimal n,
    )

module _ (env : Env) (config : Config) where
  -- Where rand.Int answers below its bound and the largest value is at most a million: a code that
  -- is drawn is below the largest value, and it is printed in six digits that are read back as it.
  pub random_code_six_digits :
      (max : ℤ) (w : World) {n : ℕ} {w' : World}
      → ((d bound k : ℕ) → env.rand_int d (suc bound) ≡ ok k → k < suc bound)
      → max ≤ℤ pos 1000000
      → random_code env config max w ≡ (ok n, w')
      → (suc_ℤ (pos n) ≤ℤ max)
        × (count (sprintf_06d n) ≡ 6)
        × (read_decimal (sprintf_06d n) ≡ some n)
  unfolding random_code
  random_code_six_digits (pos zero) w below million h = ground arith
  random_code_six_digits (pos (suc bound)) w {n} below million h =
      let small = below w.draws bound n (ground arith) in
      let (width, read) = sprintf_06d-read n (omega arith) in (omega arith, width, read)
  random_code_six_digits (negsuc n) w below million h = ground arith
