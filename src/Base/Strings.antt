-- ===== src/Base/Strings.antt =====
-- Go strings as lists of bytes: equality, `strings.Compare`, `strings.Cut`.
use Prim.Native.Nat.{ℕ, ◌+◌}
use Prim.Native.Char.{code}
use Prim.Native.String.{String}
use mathlib.Core.Path.{◌≡◌, refl}
use mathlib.Core.List.{List, [], ◌∷◌}
use native.Mathlib.Omega.{arith}
use native.Mathlib.Decide.{ℕ_discrete}
use mathlib.Core.Bool.{Bool, ◌&&◌, ◌||◌}
use mariamesh.Base.Tests.{leb, ◌==◌, ltb, if◌then◌else◌}

abbrev pub Str : Type 0
Str = List ℕ

-- The bytes of an ASCII text.
abbrev pub bytes : String → Str
bytes String.[] = []
bytes (String.◌∷◌ c s) = code c ∷ bytes s

unfoldable pub Str-discrete : Discrete Str
unfolding ℕ_discrete
Str-discrete = hlevel ℕ_discrete

-- The result of a three-way comparison: -1, 0 or +1 in the source.
pub data Sign : Type 0 where
  less equal greater : Sign

-- `strings.Compare`: lexicographic on bytes.
unfoldable pub compare_str : Str → Str → Sign
compare_str [] [] = equal
compare_str [] (y ∷ ys) = less
compare_str (x ∷ xs) [] = greater
compare_str (x ∷ xs) (y ∷ ys) =
    if ltb x y then less else if ltb y x then greater else compare_str xs ys

abbrev pub flip : Sign → Sign
flip less = greater
flip equal = equal
flip greater = less

pub compare_str-equal : (a b : Str) → compare_str a b ≡ equal → a ≡ b
unfolding compare_str
compare_str-equal [] [] h = refl
compare_str-equal [] (y ∷ ys) h = cc
compare_str-equal (x ∷ xs) [] h = cc
compare_str-equal (x ∷ xs) (y ∷ ys) h = ground (arith, compare_str-equal xs ys)

pub compare_str_refl : (a : Str) → compare_str a a ≡ equal
unfolding compare_str
compare_str_refl [] = refl
compare_str_refl (x ∷ xs) = ground (arith, compare_str_refl xs)

pub compare_str-flip : (a b : Str) → compare_str b a ≡ flip (compare_str a b)
unfolding compare_str
compare_str-flip [] [] = refl
compare_str-flip [] (y ∷ ys) = refl
compare_str-flip (x ∷ xs) [] = refl
compare_str-flip (x ∷ xs) (y ∷ ys) = ground (arith, compare_str-flip xs ys)

pub compare_str_trans :
    (a b c : Str)
    → compare_str a b ≡ greater
    → compare_str b c ≡ greater
    → compare_str a c ≡ greater
unfolding compare_str
compare_str_trans [] [] c h k = cc
compare_str_trans [] (y ∷ ys) c h k = cc
compare_str_trans (x ∷ xs) [] [] h k = cc
compare_str_trans (x ∷ xs) [] (z ∷ zs) h k = cc
compare_str_trans (x ∷ xs) (y ∷ ys) [] h k = refl
compare_str_trans (x ∷ xs) (y ∷ ys) (z ∷ zs) h k = ground (arith, compare_str_trans xs ys zs)

-- `strings.ToLower` and `strings.TrimSpace`, on ASCII text.
abbrev pub lower_byte : ℕ → ℕ
lower_byte c = if leb b'A' c && leb c b'Z' then c + 32 else c

unfoldable pub to_lower : Str → Str
to_lower [] = []
to_lower (c ∷ s) = lower_byte c ∷ to_lower s

abbrev pub is_space : ℕ → Bool
is_space c = c == 32 || (leb 9 c && leb c 13)

unfoldable pub trim_left : Str → Str
trim_left [] = []
trim_left (c ∷ s) = let rest = trim_left s in if is_space c then rest else c ∷ s

unfoldable pub trim_right : Str → Str
trim_right [] = []
trim_right (c ∷ s) = elim (trim_right s) [
  | [] ↦ if is_space c then [] else c ∷ []
  | x ∷ xs ↦ c ∷ x ∷ xs
]

unfoldable pub trim_space : Str → Str
unfolding trim_left trim_right
trim_space s = trim_right (trim_left s)

pub to_lower_idem : (s : Str) → to_lower (to_lower s) ≡ to_lower s
unfolding to_lower
to_lower_idem [] = refl
to_lower_idem (c ∷ s) = ground (arith, to_lower_idem s)
