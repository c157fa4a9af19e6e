-- ===== src/Prelude/Texts.antt =====
-- `str.strip` over code points: the white space is that of `str.isspace`.
use Prim.Native.Nat.{ℕ, zero, suc, ◌≤◌}
use Prim.Native.String.count
use native.Mathlib.Omega.{arith}
use Prim.Native.Char.{Char, code}
use Prim.Native.String.{count, String, [], ◌∷◌}
use mathlib.Core.Bool.{Bool, ◌&&◌, ◌||◌}
use text.Mathlib.Text.{◌==◌ as str_eq}
use channel_agent.Prelude.Bools.{leb, ◌==◌, if◌then◌else◌}

is_space : Char → Bool
is_space ch =
    let c = code ch in
    (leb 9 c && leb c 13)
    || (leb 28 c && leb c 32)
    || c == 0x85
    || c == 0xa0
    || c == 0x1680
    || (leb 0x2000 c && leb c 0x200a)
    || c == 0x2028
    || c == 0x2029
    || c == 0x202f
    || c == 0x205f
    || c == 0x3000

lstrip : String → String
unfolding is_space
lstrip [] = ""
lstrip (c ∷ s) = let rest = lstrip s in if is_space c then rest else c ∷ s

rstrip : String → String
unfolding is_space
rstrip [] = ""
rstrip (c ∷ s) = let rest = rstrip s in if str_eq rest "" && is_space c then "" else c ∷ rest

unfoldable pub strip : String → String
unfolding lstrip rstrip
strip s = rstrip (lstrip s)

-- `s[:n]`
unfoldable pub shortened : ℕ → String → String
shortened zero s = ""
shortened (suc n) [] = ""
shortened (suc n) (c ∷ s) = c ∷ shortened n s

pub count-shortened : (n : ℕ) (s : String) → count (shortened n s) ≤ n
unfolding shortened
count-shortened zero s = omega arith
count-shortened (suc n) [] = omega arith
count-shortened (suc n) (c ∷ s) =
    rw (count.cons c (shortened n s)) (omega (arith, count-shortened n s))
