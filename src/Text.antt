-- ===== src/Text.antt =====
-- Go's `string` as the sequence of its code points, and the functions of package strings that the
-- program calls (strings.TrimSpace, Split, Cut, Fields, Join, TrimSuffix, HasPrefix, IndexByte).
-- A Go string that is not valid UTF-8 has no counterpart here.
pub mod Number
use Prim.Native.Char.{code}
use Prim.Native.String.{String}
use motzworks.Prelude.{
  contains, ℕ, suc, zero, ◌≤◌, ◌≡◌, refl, ◌↔◌, Bool, true, false, ◌&&◌, ◌||◌, not, List, [], ◌∷◌,
  ◌++◌, Option, none, some, arith, leb, Eq, nat_Eq, ◌==◌, if◌then◌else◌, nat_eq, reverse,
}

abbrev pub Text : Type 0
Text = List ℕ

-- A string literal.
unfoldable pub lit : String → Text
lit String.[] = []
lit (String.◌∷◌ c s) = code c ∷ lit s

unfoldable pub text_eq : Text → Text → Bool
text_eq [] [] = true
text_eq [] (d ∷ t) = false
text_eq (c ∷ s) [] = false
text_eq (c ∷ s) (d ∷ t) = nat_eq c d && text_eq s t

pub text_eq_iff : (s t : Text) → (text_eq s t ≡ true) ↔ (s ≡ t)
unfolding text_eq
text_eq_iff [] [] = ground arith
text_eq_iff [] (d ∷ t) = ground arith
text_eq_iff (c ∷ s) [] = ground arith
text_eq_iff (c ∷ s) (d ∷ t) = ground (arith, text_eq_iff s t)

instance abbrev pub text_Eq : Eq Text
text_Eq = record { beq = text_eq; beq_iff = text_eq_iff }

-- `s == ""`
abbrev pub is_empty : Text → Bool
is_empty [] = true
is_empty (c ∷ s) = false

pub is_empty-eq : (s : Text) → is_empty s ≡ true → s ≡ []
is_empty-eq [] h = refl
is_empty-eq (c ∷ s) h = cc

-- unicode.IsSpace
unfoldable pub is_space : ℕ → Bool
is_space c =
    (leb 9 c && leb c 13)
    || (c == 0x20)
    || (c == 0x85)
    || (c == 0xa0)
    || (c == 0x1680)
    || (leb 0x2000 c && leb c 0x200a)
    || (c == 0x2028)
    || (c == 0x2029)
    || (c == 0x202f)
    || (c == 0x205f)
    || (c == 0x3000)

-- strings.TrimLeftFunc
unfoldable pub trim_left : (ℕ → Bool) → Text → Text
trim_left p [] = []
trim_left p (c ∷ s) = let rest = trim_left p s in if p c then rest else c ∷ s

-- strings.TrimFunc
unfoldable pub trim : (ℕ → Bool) → Text → Text
unfolding trim_left
trim p s = reverse (trim_left p (reverse (trim_left p s)))

-- strings.TrimSpace
unfoldable pub trim_space : Text → Text
unfolding trim is_space
trim_space s = trim is_space s

-- strings.Split by a one-character separator: always at least one part.
abbrev onto_head : ℕ → List Text → List Text
onto_head c [] = (c ∷ []) ∷ []
onto_head c (part ∷ parts) = (c ∷ part) ∷ parts

unfoldable pub split : ℕ → Text → List Text
split sep [] = [] ∷ []
split sep (c ∷ s) = let parts = split sep s in if c == sep then [] ∷ parts else onto_head c parts

-- strings.Cut: what stands before and after the first separator, and whether there is one.
unfoldable pub cut : ℕ → Text → Text × Text × Bool
cut sep [] = ([], [], false)
cut sep (c ∷ s) =
    let (before, after, found) = cut sep s in
    if c == sep then ([], s, true) else (c ∷ before, after, found)

pub cut-at : (c : ℕ) (s t : Text) → contains s c ≡ false → cut c (s ++ c ∷ t) ≡ (s, t, true)
unfolding cut contains
cut-at c [] t h = ground arith
cut-at c (d ∷ s) t h = ground (arith, cut-at c s t)

-- strings.Fields: the parts between runs of white space. `cur` is the field being read.
abbrev flush : Text → List Text → List Text
flush [] rest = rest
flush (c ∷ cur) rest = (c ∷ cur) ∷ rest

unfoldable pub fields_from : Text → Text → List Text
unfolding is_space
fields_from cur [] = flush cur []
fields_from cur (c ∷ s) =
    let ended = flush cur (fields_from [] s) in
    let longer = fields_from (cur ++ c ∷ []) s in if is_space c then ended else longer

unfoldable pub fields : Text → List Text
unfolding fields_from
fields s = fields_from [] s

-- strings.Join
unfoldable pub join : Text → List Text → Text
join sep [] = []
join sep (part ∷ []) = part
join sep (part ∷ next ∷ parts) = part ++ (sep ++ join sep (next ∷ parts))

-- strings.HasPrefix
unfoldable pub has_prefix : Text → Text → Bool
has_prefix s [] = true
has_prefix [] (d ∷ t) = false
has_prefix (c ∷ s) (d ∷ t) = nat_eq c d && has_prefix s t

-- strings.Contains
unfoldable pub has_infix : Text → Text → Bool
unfolding has_prefix
has_infix [] t = has_prefix [] t
has_infix (c ∷ s) t = has_prefix (c ∷ s) t || has_infix s t

-- strings.TrimSuffix with a one-character suffix.
unfoldable pub trim_suffix : Text → ℕ → Text
trim_suffix [] c = []
trim_suffix (d ∷ []) c = if d == c then [] else d ∷ []
trim_suffix (d ∷ e ∷ s) c = d ∷ trim_suffix (e ∷ s) c

-- s[:strings.IndexByte(s, c)] where c occurs, else s.
unfoldable pub before_byte : Text → ℕ → Text
before_byte [] c = []
before_byte (d ∷ s) c = if d == c then [] else d ∷ before_byte s c

trim_test : trim_space (lit " a b ") ≡ lit "a b"
unfolding trim_space lit
trim_test = refl

split_test : split b':' (lit "a::b") ≡ lit "a" ∷ [] ∷ lit "b" ∷ []
unfolding split lit
split_test = refl

fields_test : fields (lit " ab  c ") ≡ lit "ab" ∷ lit "c" ∷ []
unfolding fields lit
fields_test = refl

cut_test : cut b'=' (lit "k=v=w") ≡ (lit "k", lit "v=w", true)
unfolding cut lit
cut_test = refl
