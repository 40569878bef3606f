-- ===== src/Text/Number.antt =====
-- strconv.Atoi and strconv.ParseInt(s, 10, 64) on a 64-bit machine.
use motzworks.Prelude.{
  ℕ, zero, suc, ◌+◌, ◌-◌, ◌/◌, ◌%◌, ◌++◌, ◌*◌, ◌^◌, ◌≡◌, refl, Bool, true, false, ◌&&◌, [], ◌∷◌,
  Option, none, some, leb, ltb, if◌then◌else◌, nat_Eq, ◌==◌,
}
use motzworks.Prelude.Int.{ℤ, pos, negsuc, sub_ℕ}
use motzworks.Text.{Text, lit, is_empty}

digits_from : ℕ → Text → Option ℕ
digits_from acc [] = some acc
digits_from acc (c ∷ s) =
    let rest = digits_from (acc * 10 + (c - b'0')) s in
    if leb b'0' c && leb c b'9' then rest else none

digits : Text → Option ℕ
unfolding digits_from
digits s = if is_empty s then none else digits_from 0 s

abbrev signed : Bool → Option ℕ → Option ℤ
signed minus none = none
signed true (some n) = if leb n (2 ^ 63) then some (sub_ℕ 0 n) else none
signed false (some n) = if ltb n (2 ^ 63) then some (pos n) else none

unfoldable pub atoi : Text → Option ℤ
unfolding digits
atoi [] = none
atoi (c ∷ s) =
    if c == b'-'
    then signed true (digits s)
    else if c == b'+'
    then signed false (digits s)
    else signed false (digits (c ∷ s))

atoi_test : atoi (lit "-42") ≡ some (negsuc 41)
unfolding atoi lit
atoi_test = refl

-- fmt's %d of a number; a number has at most as many digits as `fuel` if it is below 10 ^ fuel.
unfoldable pub decimal_from : ℕ → ℕ → Text
decimal_from zero n = []
decimal_from (suc fuel) n =
    let front = decimal_from fuel (n / 10) in
    if ltb n 10 then (b'0' + n) ∷ [] else front ++ (b'0' + n % 10) ∷ []

unfoldable pub decimal : ℕ → Text
unfolding decimal_from
decimal n = decimal_from (suc n) n

decimal_test : decimal 1205 ≡ lit "1205"
unfolding decimal lit
decimal_test = refl
