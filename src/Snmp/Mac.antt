-- ===== src/Snmp/Mac.antt =====
-- internal/collector/snmp/snmp.go: pduMAC against a reader of MAC addresses.
use motzworks.Prelude.{
  ℕ, ◌+◌, ◌-◌, ◌*◌, ◌/◌, ◌%◌, ◌<◌, ◌≡◌, refl, ap, false, List, [], ◌∷◌, map, All, length, ltb,
  arith, if◌then◌else◌,
}
use motzworks.Text.{Text, join}
use motzworks.Snmp.Values.{bytes, hex2, all_zero, pdu_mac}

-- The value of a digit in base 16, written with a lower-case letter from ten on.
unfoldable pub digit_value : ℕ → ℕ
digit_value c = if ltb c b'a' then c - b'0' else c - b'a' + 10

-- The bytes that a text of two digits each, with a character in between, stands for.
unfoldable pub read_mac : Text → List ℕ
unfolding digit_value
read_mac [] = []
read_mac (c ∷ []) = []
read_mac (c ∷ d ∷ []) = (digit_value c * 16 + digit_value d) ∷ []
read_mac (c ∷ d ∷ e ∷ s) = (digit_value c * 16 + digit_value d) ∷ read_mac s

digit_value-hex :
    (d : ℕ) → d < 16 → digit_value (if ltb d 10 then b'0' + d else b'a' + (d - 10)) ≡ d
unfolding digit_value
digit_value-hex d h = ground arith

hex2-value :
    (x : ℕ)
    → x < 256
    → digit_value (if ltb (x / 16) 10 then b'0' + x / 16 else b'a' + (x / 16 - 10)) * 16
        + digit_value (if ltb (x % 16) 10 then b'0' + x % 16 else b'a' + (x % 16 - 10))
      ≡ x
hex2-value x h =
    rw (digit_value-hex (x / 16) (omega arith), digit_value-hex (x % 16) (omega arith))
      (omega arith)

read_mac-join : (b : List ℕ) → All (λ x. x < 256) b → read_mac (join (b':' ∷ []) (map hex2 b)) ≡ b
unfolding read_mac join
read_mac-join [] h = refl
read_mac-join (x ∷ []) (h, hs) = ap (λ y. y ∷ []) (hex2-value x h)
read_mac-join (x ∷ y ∷ b) (h, hs) = rw (hex2-value x h, read_mac-join (y ∷ b) hs) refl

-- The text of an address of six bytes that are not all zero reads back as these bytes.
pub read_mac-pdu_mac :
    (b : List ℕ)
    → All (λ x. x < 256) b
    → length b ≡ 6
    → all_zero b ≡ false
    → read_mac (pdu_mac (bytes b)) ≡ b
unfolding pdu_mac
read_mac-pdu_mac b h n z = rw (n, z) (read_mac-join b h)
