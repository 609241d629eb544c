-- ===== src/Prelude/Text.antt =====
-- Python's text operations that the program uses: `strip`, `lower`, `removeprefix` and decimals.
-- A text is a native `String`: Python texts without lone surrogates.
use Prim.Native.Char.{Char, char, code}
use Prim.Native.Nat.{Ordering, ℕ, zero, suc, ◌+◌, ◌-◌, ◌*◌}
use Prim.Native.String.{String, compare, ◌++◌ as ◌<>◌}
use mathlib.Core.Path.{◌≡◌, refl}
use mathlib.Core.Bool.{Bool, true, false, ◌&&◌, ◌||◌}
use mathlib.Core.Option.{Option, none, some}
use mathlib.Core.List.{List, [], ◌∷◌}
use workspace_governance_con.Prelude.Tests.{leb, ◌==◌, str_eq, if◌then◌else◌}
use workspace_governance_con.Prelude.Int.{ℤ, pos, negate}

abbrev within : ℕ → ℕ → ℕ → Bool
within lo hi c = leb lo c && leb c hi

-- `str.isspace` of one character: the whole list of Unicode.
unfoldable pub is_space : ℕ → Bool
is_space c =
    within 9 13 c
    || within 28 32 c
    || c == 133
    || c == 160
    || c == 5760
    || within 8192 8202 c
    || within 8232 8233 c
    || c == 8239
    || c == 8287
    || c == 12288

abbrev keep_unless_blank : Bool → Char → String → String
keep_unless_blank true c String.[] = String.[]
keep_unless_blank true c (String.◌∷◌ d s) = String.◌∷◌ c (String.◌∷◌ d s)
keep_unless_blank false c s = String.◌∷◌ c s

-- `strip` without and with a set of characters: what is dropped is a test on the code point.
module _ (drops : ℕ → Bool) where
  unfoldable pub lstrip_by : String → String
  lstrip_by String.[] = String.[]
  lstrip_by (String.◌∷◌ c s) =
      let rest = lstrip_by s in if drops (code c) then rest else String.◌∷◌ c s

  unfoldable pub rstrip_by : String → String
  rstrip_by String.[] = String.[]
  rstrip_by (String.◌∷◌ c s) = keep_unless_blank (drops (code c)) c (rstrip_by s)

  unfoldable pub strip_by : String → String
  unfolding lstrip_by rstrip_by
  strip_by s = rstrip_by (lstrip_by s)

unfoldable pub strip : String → String
unfolding strip_by is_space
strip = strip_by is_space

abbrev lower_letters : List Char
lower_letters =
    char 97 tt
    ∷ char 98 tt
    ∷ char 99 tt
    ∷ char 100 tt
    ∷ char 101 tt
    ∷ char 102 tt
    ∷ char 103 tt
    ∷ char 104 tt
    ∷ char 105 tt
    ∷ char 106 tt
    ∷ char 107 tt
    ∷ char 108 tt
    ∷ char 109 tt
    ∷ char 110 tt
    ∷ char 111 tt
    ∷ char 112 tt
    ∷ char 113 tt
    ∷ char 114 tt
    ∷ char 115 tt
    ∷ char 116 tt
    ∷ char 117 tt
    ∷ char 118 tt
    ∷ char 119 tt
    ∷ char 120 tt
    ∷ char 121 tt
    ∷ char 122 tt
    ∷ []

nth_or : List Char → ℕ → Char → Char
nth_or [] i d = d
nth_or (x ∷ xs) zero d = x
nth_or (x ∷ xs) (suc i) d = nth_or xs i d

-- `str.lower` of one character, for the letters A to Z and the Kelvin sign, the only other character
-- whose lower case is ASCII. Other characters stay, so a comparison of `lower s` with an ASCII word
-- has Python's answer for every text.
unfoldable pub lower_char : Char → Char
unfolding nth_or
lower_char c =
    if within 65 90 (code c)
    then nth_or lower_letters (code c - 65) c
    else if code c == 8490
    then char 107 tt
    else c

unfoldable pub lower : String → String
unfolding lower_char
lower String.[] = String.[]
lower (String.◌∷◌ c s) = String.◌∷◌ (lower_char c) (lower s)

abbrev pub is_empty : String → Bool
is_empty String.[] = true
is_empty (String.◌∷◌ c s) = false

is_digit : ℕ → Bool
is_digit c = within 48 57 c

-- The digits of `int(text)` after the sign, with single underscores between digits. The flag says that
-- the last character read was a digit.
digits : String → ℕ → Bool → Option ℕ
unfolding is_digit
digits String.[] acc seen = if seen then some acc else none
digits (String.◌∷◌ c s) acc seen =
    let next = digits s (acc * 10 + (code c - 48)) true in
    let gap = digits s acc false in
    if is_digit (code c) then next else if seen && code c == 95 then gap else none

unsigned : Option ℕ → (ℕ → ℤ) → Option ℤ
unsigned none f = none
unsigned (some n) f = some (f n)

signed : String → Option ℤ
unfolding digits unsigned
signed String.[] = none
signed (String.◌∷◌ c s) =
    if code c == 45
    then unsigned (digits s 0 false) (λ n. negate (pos n))
    else if code c == 43
    then unsigned (digits s 0 false) pos
    else unsigned (digits (String.◌∷◌ c s) 0 false) pos

-- Python's `int(text)`, for ASCII digits; `none` is `ValueError`.
unfoldable pub parse_int : String → Option ℤ
unfolding strip signed
parse_int s = signed (strip s)

unfoldable pub ends_with : String → String → Bool
ends_with suffix String.[] = str_eq String.[] suffix
ends_with suffix (String.◌∷◌ c s) = str_eq (String.◌∷◌ c s) suffix || ends_with suffix s

-- `str` ordering, `<=`.
abbrev pub text_le : String → String → Bool
text_le a b = elim (compare a b) [ Ordering.gt ↦ false | _ ↦ true ]

unfoldable pub cut : String → String → Option String
cut String.[] s = some s
cut (String.◌∷◌ p ps) String.[] = none
cut (String.◌∷◌ p ps) (String.◌∷◌ c s) =
    let rest = cut ps s in if code p == code c then rest else none

-- `text.removeprefix(prefix)`
unfoldable pub remove_prefix : String → String → String
unfolding cut
remove_prefix prefix s = elim (cut prefix s) [ none ↦ s | some rest ↦ rest ]

strips : strip " a b\t" ≡ "a b"
unfolding strip
strips = refl

lowers : lower "BLocKed9" ≡ "blocked9"
unfolding lower
lowers = refl

parses : parse_int " -1_0 " ≡ some (negate (pos 10))
unfolding parse_int
parses = refl

-- `text[:n]`, in characters.
unfoldable pub first_characters : ℕ → String → String
first_characters zero s = String.[]
first_characters (suc n) String.[] = String.[]
first_characters (suc n) (String.◌∷◌ c s) = String.◌∷◌ c (first_characters n s)

-- `text.replace(a, "").replace(b, "")` for two characters.
unfoldable pub without_characters : ℕ → ℕ → String → String
without_characters a b String.[] = String.[]
without_characters a b (String.◌∷◌ c s) =
    let rest = without_characters a b s in
    if code c == a || code c == b then rest else String.◌∷◌ c rest

-- `text.startswith(prefix)`
unfoldable pub starts_with : String → String → Bool
unfolding cut
starts_with prefix s = elim (cut prefix s) [ none ↦ false | some rest ↦ true ]

-- `text[:-1]`
unfoldable pub without_last : String → String
without_last String.[] = String.[]
without_last (String.◌∷◌ c String.[]) = String.[]
without_last (String.◌∷◌ c (String.◌∷◌ d s)) = String.◌∷◌ c (without_last (String.◌∷◌ d s))

-- `text.replace("\\", "/")`
unfoldable pub slashes : String → String
slashes String.[] = String.[]
slashes (String.◌∷◌ c s) = String.◌∷◌ (if code c == 92 then char 47 tt else c) (slashes s)

-- `text.count(c)` for one character.
unfoldable pub count_char : ℕ → String → ℕ
count_char k String.[] = 0
count_char k (String.◌∷◌ c s) = let rest = count_char k s in if code c == k then rest + 1 else rest

-- `len(text)`
unfoldable pub text_length : String → ℕ
text_length String.[] = 0
text_length (String.◌∷◌ c s) = text_length s + 1

-- `prefix in text` for a text that is not empty.
unfoldable pub occurs : String → String → Bool
unfolding starts_with
occurs word String.[] = starts_with word String.[]
occurs word (String.◌∷◌ c s) = starts_with word (String.◌∷◌ c s) || occurs word s

-- The characters of a text, each as a text.
unfoldable pub characters : String → List String
characters String.[] = []
characters (String.◌∷◌ c s) = String.◌∷◌ c String.[] ∷ characters s

-- `", ".join(texts)` and the like.
unfoldable pub join : String → List String → String
join separator [] = ""
join separator (s ∷ []) = s
join separator (s ∷ t ∷ ts) = s <> (separator <> join separator (t ∷ ts))
