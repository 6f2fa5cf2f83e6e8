-- ===== src/Base/Number.antt =====
-- The numbers of JavaScript: finite doubles, each a whole multiple of 2 ^ -1074 and held as that
-- multiple. A result is the exact one rounded to 53 binary digits, the nearest one and of two the
-- even one. Infinity and NaN, which amounts near 2 ^ 1024 and a division by zero give, are not there.
use Prim.Native.Nat.{ℕ, ◌+◌, ◌*◌, ◌/◌, ◌%◌, ◌^◌}
use mathlib.Core.Bool.{Bool, ◌&&◌}
use mathlib.Core.List.{List, [], ◌∷◌}
use igreen_backend.Base.Tests.{ltb, if◌then◌else◌, ◌==◌}
use igreen_backend.Base.Int.{
  ℤ, pos, negsuc, pos_part, neg_part, sub_ℕ, ◌+ℤ◌, ◌-ℤ◌, scale, floor_div,
}

-- 1
abbrev pub unit : ℕ
unit = 2 ^ 1074

-- How many binary digits a natural number has beyond 53, below the sum of the steps.
excess : List ℕ → ℕ → ℕ
excess [] q = 0
excess (s ∷ steps) q = elim (ltb q (2 ^ (52 + s))) [
  | Bool.true ↦ excess steps q
  | Bool.false ↦ s + excess steps (q / 2 ^ s)
]

half_even : ℕ → ℕ → ℕ
half_even n d =
    let q = n / d in
    let r = n % d in if ltb (2 * r) d then q else if ltb d (2 * r) then q + 1 else q + q % 2

-- The double nearest to a quotient.
unfoldable pub nearest : ℕ → ℕ → ℕ
unfolding excess half_even
nearest n d =
    let s = excess (1024 ∷ 512 ∷ 256 ∷ 128 ∷ 64 ∷ 32 ∷ 16 ∷ 8 ∷ 4 ∷ 2 ∷ 1 ∷ []) (n / d) in
    half_even n (d * 2 ^ s) * 2 ^ s

abbrev pub nearest_ℤ : ℤ → ℕ → ℤ
nearest_ℤ a d = sub_ℕ (nearest (pos_part a) d) (nearest (neg_part a) d)

-- A whole number.
abbrev pub number : ℤ → ℤ
number a = scale unit a

abbrev pub add : ℤ → ℤ → ℤ
add a b = nearest_ℤ (a +ℤ b) 1

abbrev pub sub : ℤ → ℤ → ℤ
sub a b = nearest_ℤ (a -ℤ b) 1

abbrev pub mul : ℤ → ℤ → ℤ
mul a b =
    nearest_ℤ
      (sub_ℕ (pos_part a * pos_part b + neg_part a * neg_part b)
        (pos_part a * neg_part b + neg_part a * pos_part b))
      unit

abbrev pub div : ℤ → ℤ → ℤ
div a (pos d) = nearest_ℤ (scale unit a) d
div a (negsuc d) = nearest_ℤ (scale unit (pos 0 -ℤ a)) (d + 1)

-- `Math.round`: the nearest whole number, of two the upper one; exact.
abbrev pub math_round : ℤ → ℤ
math_round a = floor_div (scale 2 a +ℤ pos unit) (2 * unit)

abbrev pub is_zero : ℤ → Bool
is_zero a = pos_part a == 0 && neg_part a == 0
