-- ===== src/Base/Text.antt =====
-- What the program uses of Go's strings and strconv, over native texts.
use Prim.Native.Nat.{ℕ, zero, suc, ◌+◌, ◌-◌, ◌*◌, ◌/◌, ◌%◌, ◌^◌}
use Prim.Native.Char.{Char, code}
use Prim.Native.String.{String, ◌++◌, slice, char_at}
use mathlib.Core.Path.{◌≡◌, refl, ap, ◌∙◌}
use mathlib.Core.Logic.{inl, inr}
use mathlib.Core.Option.{Option, none, some}
use mathlib.Core.List.{List, [], ◌∷◌}
use text.Mathlib.Text.{◌==◌ as str_eq}
use mathlib.Core.Bool.{Bool, true, false, ◌&&◌, ◌||◌}
use yaralpho.Base.Tests.{leb, ltb, ◌==◌, if◌then◌else◌, Bool-cases}
use yaralpho.Base.Int.{ℤ, pos, negsuc}

-- unicode.IsSpace
abbrev pub is_space : ℕ → Bool
is_space c =
    (leb 9 c && leb c 13)
    || c == 32
    || c == 0x85
    || c == 0xA0
    || c == 0x1680
    || (leb 0x2000 c && leb c 0x200a)
    || c == 0x2028
    || c == 0x2029
    || c == 0x202f
    || c == 0x205f
    || c == 0x3000

pub is_blank : String → Bool
is_blank String.[] = true
is_blank (String.◌∷◌ c s) = false

trim_left : String → String
trim_left String.[] = String.[]
trim_left (String.◌∷◌ c s) = if is_space (code c) then trim_left s else String.◌∷◌ c s

trim_right : String → String
trim_right String.[] = String.[]
trim_right (String.◌∷◌ c s) =
    let rest = trim_right s in
    if is_space (code c) && is_blank rest then String.[] else String.◌∷◌ c rest

-- strings.TrimSpace
unfoldable pub trim_space : String → String
unfolding trim_left trim_right is_blank
trim_space s = trim_right (trim_left s)

-- The lower case of a code point, for the ASCII letters and for the two other code points whose lower
-- case is an ASCII letter. The program compares the result with ASCII words only.
lower : Char → Char
lower c =
    if leb 65 (code c) && leb (code c) 90
    then char_at "abcdefghijklmnopqrstuvwxyz" (code c - 65)
    else if code c == 0x130
    then "i"
    else if code c == 0x212A
    then "k"
    else c

-- strings.ToLower
unfoldable pub to_lower : String → String
unfolding lower
to_lower String.[] = String.[]
to_lower (String.◌∷◌ c s) = String.◌∷◌ (lower c) (to_lower s)

-- The digits of a number, with fuel for as many as there can be.
digits : ℕ → ℕ → String
digits zero n = ""
digits (suc f) n =
    let rest = digits f (n / 10) in
    let last = slice "0123456789" (n % 10) (n % 10 + 1) in if ltb n 10 then last else rest ++ last

-- strconv.FormatInt(n, 10), of a number that is not negative.
unfoldable pub format_int : ℕ → String
unfolding digits
format_int n = digits (suc n) n

-- strconv.Atoi, without the bound of an int64: an optional sign and decimal digits.
scan_digits : ℕ → String → Option ℕ
scan_digits n String.[] = some n
scan_digits n (String.◌∷◌ c s) =
    if leb 48 (code c) && leb (code c) 57 then scan_digits (n * 10 + (code c - 48)) s else none

scan_unsigned : String → Option ℕ
unfolding scan_digits
scan_unsigned String.[] = none
scan_unsigned (String.◌∷◌ c s) = scan_digits 0 (String.◌∷◌ c s)

negate : ℕ → ℤ
negate zero = pos 0
negate (suc n) = negsuc n

abbrev in_int64 : Option ℤ → Option ℤ
in_int64 none = none
in_int64 (some (pos n)) = if ltb n (2 ^ 63) then some (pos n) else none
in_int64 (some (negsuc n)) = if ltb n (2 ^ 63) then some (negsuc n) else none

unfoldable pub atoi : String → Option ℤ
unfolding scan_unsigned negate
atoi String.[] = none
atoi (String.◌∷◌ c s) = in_int64 (
    if code c == b'-'
    then elim (scan_unsigned s) [ none ↦ none | some n ↦ some (negate n) ]
    else if code c == b'+'
    then elim (scan_unsigned s) [ none ↦ none | some n ↦ some (pos n) ]
    else elim (scan_unsigned (String.◌∷◌ c s)) [ none ↦ none | some n ↦ some (pos n) ])

infixr 61 ◌&◌
-- The joining of two texts.
abbrev pub ◌&◌ : String → String → String
s & t = s ++ t

-- strings.Join
unfoldable pub join : String → List String → String
join separator [] = ""
join separator (s ∷ []) = s
join separator (s ∷ t ∷ rest) = s ++ separator ++ join separator (t ∷ rest)

-- strconv.Itoa, also fmt's %d.
unfoldable pub itoa : ℤ → String
unfolding format_int
itoa (pos n) = format_int n
itoa (negsuc n) = "-" ++ format_int (suc n)

has_prefix : String → String → Bool
has_prefix String.[] s = true
has_prefix (String.◌∷◌ c p) String.[] = false
has_prefix (String.◌∷◌ c p) (String.◌∷◌ d s) = code c == code d && has_prefix p s

-- strings.Contains(s, p)
unfoldable pub contains : String → String → Bool
unfolding has_prefix
contains String.[] p = has_prefix p String.[]
contains (String.◌∷◌ c s) p = has_prefix p (String.◌∷◌ c s) || contains s p

-- A code point under Unicode's simple folding, as far as it reaches the ASCII letters.
fold_char : Char → Char
fold_char c =
    if leb 65 (code c) && leb (code c) 90
    then char_at "abcdefghijklmnopqrstuvwxyz" (code c - 65)
    else if code c == 0x17F
    then "s"
    else if code c == 0x212A
    then "k"
    else c

fold_text : String → String
unfolding fold_char
fold_text String.[] = String.[]
fold_text (String.◌∷◌ c s) = String.◌∷◌ (fold_char c) (fold_text s)

-- strings.EqualFold, where one of the texts is ASCII.
unfoldable pub equal_fold : String → String → Bool
unfolding fold_text
equal_fold s t = str_eq (fold_text s) (fold_text t)

-- strconv.ParseBool
unfoldable pub parse_bool : String → Option Bool
parse_bool s =
    if str_eq s "1"
      || str_eq s "t"
      || str_eq s "T"
      || str_eq s "TRUE"
      || str_eq s "true"
      || str_eq s "True"
    then some true
    else if str_eq s "0"
        || str_eq s "f"
        || str_eq s "F"
        || str_eq s "FALSE"
        || str_eq s "false"
        || str_eq s "False"
    then some false
    else none

Starts : String → Type 0
Starts String.[] = Unit
Starts (String.◌∷◌ c s) = is_space (code c) ≡ false

trim_left-Starts : (s : String) → Starts (trim_left s)
unfolding trim_left Starts
trim_left-Starts String.[] = tt
trim_left-Starts (String.◌∷◌ c s) = elim (Bool-cases (is_space (code c))) [
  | inl e ↦ rw (trim_left, e) (trim_left-Starts s)
  | inr e ↦ rw (trim_left, e) e
]

trim_left-id : (s : String) → Starts s → trim_left s ≡ s
unfolding trim_left Starts
trim_left-id String.[] h = refl
trim_left-id (String.◌∷◌ c s) h = rw h refl

trim_right-Starts : (s : String) → Starts s → Starts (trim_right s)
unfolding trim_right Starts is_blank
trim_right-Starts String.[] h = tt
trim_right-Starts (String.◌∷◌ c s) h = rw h h

trim_right-step :
    (c : Char) (s : String)
    → trim_right s ≡ s
    → (is_space (code c) && is_blank s) ≡ false
    → trim_right (String.◌∷◌ c s) ≡ String.◌∷◌ c s
unfolding trim_right
trim_right-step c s h e = rw (trim_right, h, e) refl

trim_right-trim_right : (s : String) → trim_right (trim_right s) ≡ trim_right s
unfolding trim_right is_blank
trim_right-trim_right String.[] = refl
trim_right-trim_right (String.◌∷◌ c s) =
    elim (Bool-cases (is_space (code c) && is_blank (trim_right s))) [
      | inl e ↦ rw (trim_right, e) refl
      | inr e ↦ rw (trim_right, e) (trim_right-step c (trim_right s) (trim_right-trim_right s) e)
    ]

-- A trimmed text stays as it is.
pub trim_space-trim_space : (s : String) → trim_space (trim_space s) ≡ trim_space s
unfolding trim_space
trim_space-trim_space s =
    ap trim_right (trim_left-id _ (trim_right-Starts _ (trim_left-Starts s)))
    ∙ trim_right-trim_right (trim_left s)

trim_space_test : trim_space "  a b\n" ≡ "a b"
unfolding trim_space
trim_space_test = refl

to_lower_test : to_lower "CoDex" ≡ "codex"
unfolding to_lower
to_lower_test = refl

format_int_test : format_int 1700000000000000042 ≡ "1700000000000000042"
unfolding format_int
format_int_test = refl

atoi_test :
    (atoi "-12" ≡ some (negsuc 11)) × (atoi "9223372036854775808" ≡ none) × (atoi "x" ≡ none)
unfolding atoi
atoi_test = (refl, refl, refl)

equal_fold_test :
    (equal_fold "Session.IDLE" "session.idle" ≡ true) × (contains "Task %s" "%s" ≡ true)
unfolding equal_fold contains
equal_fold_test = (refl, refl)
