-- ===== src/Snmp/Values.antt =====
-- internal/collector/snmp/snmp.go: the values of PDUs. The conversion of bytes to a string is a
-- parameter.
use motzworks.Prelude.{
  ℕ, suc, ◌+◌, ◌-◌, ◌/◌, ◌%◌, ◌^◌, Bool, true, ◌&&◌, ◌||◌, not, List, [], ◌∷◌, Option, none, some,
  map, reverse, ltb, nat_eq, length, if◌then◌else◌, ◌==◌, nat_Eq,
}
use motzworks.Prelude.Int.{ℤ, pos, negsuc, sub_ℕ}
use motzworks.Text.{Text, trim_left, join}
use motzworks.Text.Number.{atoi, decimal}

-- The dynamic type of a PDU's value: []byte, string, int or int64, uint or uint64, uint32, nil, or any
-- other, of which only the text of %v is used.
pub data Value : Type 0 where
  bytes : List ℕ → Value
  string : Text → Value
  integer : ℤ → Value
  unsigned : ℕ → Value
  unsigned32 : ℕ → Value
  nil : Value
  other : Text → Value

pub record Pdu : Type 0 where
  pub name : Text
  pub value : Value

-- pduMAC
abbrev hex_digit : ℕ → ℕ
hex_digit d = if ltb d 10 then b'0' + d else b'a' + (d - 10)

abbrev pub hex2 : ℕ → Text
hex2 x = hex_digit (x / 16) ∷ hex_digit (x % 16) ∷ []

abbrev pub all_zero : List ℕ → Bool
all_zero [] = true
all_zero (x ∷ b) = nat_eq x 0 && all_zero b

abbrev mac_of : List ℕ → Text
mac_of b = if not (nat_eq (length b) 6) || all_zero b then [] else join (b':' ∷ []) (map hex2 b)

unfoldable pub pdu_mac : Value → Text
pdu_mac (bytes b) = mac_of b
pdu_mac (string s) = []
pdu_mac (integer n) = []
pdu_mac (unsigned n) = []
pdu_mac (unsigned32 n) = []
pdu_mac nil = []
pdu_mac (other s) = []

abbrev decimal_ℤ : ℤ → Text
decimal_ℤ (pos n) = decimal n
decimal_ℤ (negsuc n) = b'-' ∷ decimal (suc n)

-- int64(v) of a 64-bit unsigned number.
abbrev pub to_int64 : ℕ → ℤ
to_int64 n = if ltb n (2 ^ 63) then pos n else sub_ℕ n (2 ^ 64)

-- Go's division of integers, toward zero.
abbrev pub quot : ℤ → ℕ → ℤ
quot (pos n) m = pos (n / m)
quot (negsuc n) m = sub_ℕ 0 (suc n / m)

abbrev or_zero : Option ℤ → ℤ
or_zero none = pos 0
or_zero (some n) = n

module _ (to_text : List ℕ → Text) where
  -- pduString
  unfoldable pub pdu_string : Value → Text
  pdu_string (bytes b) = reverse (trim_left (λ c. c == 0) (reverse (to_text b)))
  pdu_string (string s) = s
  pdu_string (integer n) = decimal_ℤ n
  pdu_string (unsigned n) = decimal n
  pdu_string (unsigned32 n) = decimal n
  pdu_string nil = []
  pdu_string (other s) = s

  abbrev parsed : Text → ℤ
  parsed [] = pos 0
  parsed (c ∷ s) = or_zero (atoi (c ∷ s))

  -- pduUint
  unfoldable pub pdu_uint : Value → ℤ
  pdu_uint (bytes b) = parsed (pdu_string (bytes b))
  pdu_uint (string s) = parsed s
  pdu_uint (integer n) = n
  pdu_uint (unsigned n) = to_int64 n
  pdu_uint (unsigned32 n) = pos n
  pdu_uint nil = pos 0
  pdu_uint (other s) = parsed s
