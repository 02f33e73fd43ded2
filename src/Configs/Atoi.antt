-- ===== src/Configs/Atoi.antt =====
-- `strconv.Atoi` and `strconv.Itoa` of Go's standard library, on 64-bit integers.
pub mod Laws
use Prim.Native.Char.{Char, code}
use go_auth_refresh_template.Base.{
  ℕ, zero, suc, ◌+◌, ◌-◌, ◌*◌, ◌^◌, ℤ, pos, negsuc, String, Bool, Option, none, some, leb, ltb,
  nat_eq, ◌&&◌, if◌then◌else◌,
}
use go_auth_refresh_template.Errors.{Error, external}
use go_auth_refresh_template.World.{Outcome, ok, err}
use go_auth_refresh_template.Secure.Format.{decimal}

abbrev pub is_digit : ℕ → Bool
is_digit c = leb b'0' c && leb c b'9'

-- The number that decimal digits spell behind `n`.
unfoldable pub read_digits : ℕ → String → Option ℕ
read_digits n String.[] = some n
read_digits n (String.◌∷◌ c s) =
    let rest = read_digits (n * 10 + (code c - b'0')) s in if is_digit (code c) then rest else none

-- One digit or more.
unfoldable pub read_decimal : String → Option ℕ
unfolding read_digits
read_decimal String.[] = none
read_decimal (String.◌∷◌ c s) = read_digits 0 (String.◌∷◌ c s)

abbrev pub bad_number : Error
bad_number = external "strconv.Atoi"

abbrev positive : Option ℕ → Outcome ℤ
positive none = err bad_number
positive (some n) = if ltb n (2 ^ 63) then ok (pos n) else err bad_number

abbrev negative : Option ℕ → Outcome ℤ
negative none = err bad_number
negative (some zero) = ok (pos 0)
negative (some (suc n)) = if ltb n (2 ^ 63) then ok (negsuc n) else err bad_number

unfoldable pub atoi : String → Outcome ℤ
unfolding read_decimal
atoi String.[] = err bad_number
atoi (String.◌∷◌ c s) =
    if nat_eq (code c) b'-'
    then negative (read_decimal s)
    else if nat_eq (code c) b'+'
    then positive (read_decimal s)
    else positive (read_decimal (String.◌∷◌ c s))

unfoldable pub itoa : ℤ → String
itoa (pos n) = decimal n
itoa (negsuc n) = String.◌∷◌ "-" (decimal (suc n))
