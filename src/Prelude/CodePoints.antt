-- ===== src/Prelude/CodePoints.antt =====
-- Texts as lists of code points, for the code that walks them.
use Prim.Native.Char.{code}
use Prim.Native.String.{String}
use Prim.Native.Nat.{ℕ}
use channel_agent.Prelude.Lists.{any}
use mathlib.Core.Option.{Option, none, some}
use mathlib.Core.Logic.{inl, inr}
use channel_agent.Prelude.Bools.{Bool-cases, leb, ◌==◌, if◌then◌else◌}
use mathlib.Core.Path.{◌≡◌, refl}
use mathlib.Core.Bool.{Bool, true, false, ◌&&◌, ◌||◌}
use mathlib.Core.List.{List, [], ◌∷◌, ◌++◌}
use native.Mathlib.Omega.{arith}

abbrev pub Codes : Type 0
Codes = List ℕ

abbrev pub codes : String → Codes
codes String.[] = []
codes (String.◌∷◌ c s) = code c ∷ codes s

abbrev pub is_digit : ℕ → Bool
is_digit c = leb b'0' c && leb c b'9'

abbrev pub is_alnum : ℕ → Bool
is_alnum c = is_digit c || (leb b'A' c && leb c b'Z') || (leb b'a' c && leb c b'z')

-- `str.isspace` of one character
unfoldable pub is_white : ℕ → Bool
is_white c =
    (leb 9 c && leb c 13)
    || (leb 28 c && leb c 32)
    || c == 0x85
    || c == 0xa0
    || c == 0x1680
    || (leb 0x2000 c && leb c 0x200a)
    || c == 0x2028
    || c == 0x2029
    || c == 0x202f
    || c == 0x205f
    || c == 0x3000

-- `s == t`
unfoldable pub same_codes : Codes → Codes → Bool
same_codes [] [] = true
same_codes [] (d ∷ t) = false
same_codes (c ∷ s) [] = false
same_codes (c ∷ s) (d ∷ t) = c == d && same_codes s t

pub same_codes_refl : (s : Codes) → same_codes s s ≡ true
unfolding same_codes
same_codes_refl [] = refl
same_codes_refl (c ∷ s) = ground (arith, same_codes_refl s)

pub eq_of_same_codes : (s t : Codes) → same_codes s t ≡ true → s ≡ t
unfolding same_codes
eq_of_same_codes [] [] h = refl
eq_of_same_codes [] (d ∷ t) h = cc
eq_of_same_codes (c ∷ s) [] h = cc
eq_of_same_codes (c ∷ s) (d ∷ t) h = ground (arith, eq_of_same_codes s t)

-- `text.startswith(prefix)`
unfoldable pub starts_with : Codes → Codes → Bool
starts_with [] text = true
starts_with (c ∷ cs) [] = false
starts_with (c ∷ cs) (d ∷ ds) = c == d && starts_with cs ds

-- `needle in text`
unfoldable pub is_infix : Codes → Codes → Bool
is_infix needle [] = starts_with needle []
is_infix needle (c ∷ cs) = starts_with needle (c ∷ cs) || is_infix needle cs

unfoldable pub lstrip_codes : Codes → Codes
lstrip_codes [] = []
lstrip_codes (c ∷ s) = let rest = lstrip_codes s in if is_white c then rest else c ∷ s

abbrev pub is_nil {ℓ} : {A : Type ℓ} → List A → Bool
is_nil [] = true
is_nil (x ∷ xs) = false

unfoldable pub rstrip_codes : Codes → Codes
rstrip_codes [] = []
rstrip_codes (c ∷ s) =
    let rest = rstrip_codes s in if is_nil rest && is_white c then [] else c ∷ rest

-- `text.strip()`
abbrev pub strip_codes : Codes → Codes
strip_codes s = rstrip_codes (lstrip_codes s)

pub starts_with-append : (s t : Codes) → starts_with s (s ++ t) ≡ true
unfolding starts_with
starts_with-append [] t = refl
starts_with-append (c ∷ s) t = ground (arith, starts_with-append s t)

-- `text.partition(separator)` for one character: `none` where it does not occur.
unfoldable pub partition : ℕ → Codes → Option (Codes × Codes)
partition separator [] = none
partition separator (c ∷ cs) =
    if c == separator
    then some ([], cs)
    else elim (partition separator cs) [ none ↦ none | some (a, b) ↦ some (c ∷ a, b) ]

abbrev pub push_first : ℕ → List Codes → List Codes
push_first c [] = (c ∷ []) ∷ []
push_first c (s ∷ rest) = (c ∷ s) ∷ rest

-- `text.split(separator)` for one character
unfoldable pub pieces : ℕ → Codes → List Codes
pieces separator [] = [] ∷ []
pieces separator (c ∷ cs) =
    let rest = pieces separator cs in if c == separator then [] ∷ rest else push_first c rest

-- A text without the separator, the separator, and any text.
pub partition-append :
    (separator : ℕ) (s t : Codes)
    → any (λ c. c == separator) s ≡ false
    → partition separator (s ++ separator ∷ t) ≡ some (s, t)
unfolding partition
partition-append separator [] t h = ground arith
partition-append separator (c ∷ s) t h = ground (arith, partition-append separator s t)

pub rstrip-append_newline : (s : Codes) → rstrip_codes (s ++ 10 ∷ []) ≡ rstrip_codes s
unfolding rstrip_codes
rstrip-append_newline [] = unfold is_white in refl
rstrip-append_newline (c ∷ s) = rw (rstrip-append_newline s) refl

-- Nothing is stripped on the right of a text that ends so.
pub rstrip-append :
    (s t : Codes) → is_nil t ≡ false → rstrip_codes t ≡ t → rstrip_codes (s ++ t) ≡ s ++ t
unfolding rstrip_codes
rstrip-append [] t n h = h
rstrip-append (c ∷ s) [] n h = cc
rstrip-append (c ∷ []) (d ∷ t) n h = rw h refl
rstrip-append (c ∷ b ∷ s) (d ∷ t) n h = rw (rstrip-append (b ∷ s) (d ∷ t) n h) refl

pub rstrip_solid : (s : Codes) → any is_white s ≡ false → rstrip_codes s ≡ s
unfolding rstrip_codes
rstrip_solid [] h = refl
rstrip_solid (c ∷ s) h = ground (arith, rstrip_solid s)

pub strip-append_newline : (s : Codes) → strip_codes (s ++ 10 ∷ []) ≡ strip_codes s
unfolding lstrip_codes
strip-append_newline [] = unfold is_white in refl
strip-append_newline (c ∷ s) = elim (Bool-cases (is_white c)) [
  | inl white ↦ rw white (strip-append_newline s)
  | inr solid ↦ rw solid (rstrip-append_newline (c ∷ s))
]
