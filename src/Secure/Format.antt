-- ===== src/Secure/Format.antt =====
-- The number formats of Go's standard library that the program uses: `hex.EncodeToString` and
-- `fmt.Sprintf("%06d", n)`.
use Prim.Native.Char.{Char}
use Prim.Native.String.{count}
use go_auth_refresh_template.Base.{
  ℕ, zero, suc, ◌/◌, ◌%◌, ◌-◌, String, List, [], ◌∷◌, ltb, nat_eq, if◌then◌else◌,
}

-- The digits of "0123456789abcdef".
abbrev pub digit_char : ℕ → Char
digit_char n =
    if nat_eq n 0
    then "0"
    else if nat_eq n 1
    then "1"
    else if nat_eq n 2
    then "2"
    else if nat_eq n 3
    then "3"
    else if nat_eq n 4
    then "4"
    else if nat_eq n 5
    then "5"
    else if nat_eq n 6
    then "6"
    else if nat_eq n 7
    then "7"
    else if nat_eq n 8
    then "8"
    else if nat_eq n 9
    then "9"
    else if nat_eq n 10
    then "a"
    else if nat_eq n 11
    then "b"
    else if nat_eq n 12
    then "c"
    else if nat_eq n 13
    then "d"
    else if nat_eq n 14
    then "e"
    else "f"

-- `hex.EncodeToString`
unfoldable pub encode_to_string : List ℕ → String
encode_to_string [] = ""
encode_to_string (b ∷ bs) =
    String.◌∷◌ (digit_char (b / 16)) (String.◌∷◌ (digit_char (b % 16)) (encode_to_string bs))

-- The decimal digits of `n` before `acc`; the fuel bounds their number.
unfoldable pub decimal_from : ℕ → ℕ → String → String
decimal_from zero n acc = acc
decimal_from (suc fuel) n acc =
    let rest = decimal_from fuel (n / 10) (String.◌∷◌ (digit_char (n % 10)) acc) in
    if ltb n 10 then String.◌∷◌ (digit_char n) acc else rest

unfoldable pub decimal : ℕ → String
unfolding decimal_from
decimal n = decimal_from (suc n) n ""

unfoldable pub pad_zeros : ℕ → String → String
pad_zeros zero s = s
pad_zeros (suc k) s = String.◌∷◌ "0" (pad_zeros k s)

-- `fmt.Sprintf("%06d", n)`
unfoldable pub sprintf_06d : ℕ → String
unfolding decimal pad_zeros
sprintf_06d n = pad_zeros (6 - count (decimal n)) (decimal n)
