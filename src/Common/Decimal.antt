-- ===== src/Common/Decimal.antt =====
-- `Display` and `FromStr` of `u32`.
use Prim.Native.Nat.{ℕ, zero, suc, ◌+◌, ◌-◌, ◌*◌, ◌/◌, ◌%◌, ◌≤◌, ◌<◌}
use mathlib.Core.Path.{◌≡◌, refl, ap, ◌∙◌, sym}
use mathlib.Core.Logic.{◌≢◌, inl, inr}
use mathlib.Core.Bool.{◌&&◌}
use mathlib.Core.Option.{Option, none, some}
use mathlib.Core.List.{[], ◌∷◌, ◌++◌}
use native.Mathlib.Omega.{arith}
use steel_proxy.Common.Tests.{nat_beq, ltb, leb, if◌then◌else◌, Bool-cases}
use steel_proxy.Common.Results.{Text}
use steel_proxy.Common.Lists.{All, All-append}

show_fuel : ℕ → ℕ → Text
show_fuel zero n = []
show_fuel (suc f) n =
    let front = show_fuel f (n / 10) in
    if ltb n 10 then (48 + n) ∷ [] else front ++ (48 + n % 10) ∷ []

-- `n.to_string()`; a number has fewer digits than its successor.
unfoldable pub show : ℕ → Text
unfolding show_fuel
show n = show_fuel (suc n) n

abbrev pub u32_max : ℕ
u32_max = 4294967295

-- The checked loop of `u32::from_str_radix` with radix 10.
parse_digits : ℕ → Text → Option ℕ
parse_digits acc [] = some acc
parse_digits acc (c ∷ s) =
    let rest = parse_digits (acc * 10 + (c - 48)) s in
    if leb 48 c && leb c 57 && leb (acc * 10 + (c - 48)) u32_max then rest else none

-- `s.parse::<u32>()`: an optional `+`, then at least one digit, and no overflow.
unfoldable pub parse_u32 : Text → Option ℕ
unfolding parse_digits
parse_u32 [] = none
parse_u32 (c ∷ []) = if nat_beq c b'+' then none else parse_digits 0 (c ∷ [])
parse_u32 (c ∷ d ∷ s) =
    if nat_beq c b'+' then parse_digits 0 (d ∷ s) else parse_digits 0 (c ∷ d ∷ s)

-- The number that a run of digits continues.
value : ℕ → Text → ℕ
value acc [] = acc
value acc (c ∷ s) = value (acc * 10 + (c - 48)) s

value-append : (acc : ℕ) (s t : Text) → value acc (s ++ t) ≡ value (value acc s) t
unfolding value
value-append acc [] t = refl
value-append acc (c ∷ s) t = value-append (acc * 10 + (c - 48)) s t

value_digit : (acc d : ℕ) → value acc ((48 + d) ∷ []) ≡ acc * 10 + d
unfolding value
value_digit acc d = omega arith

value-show_fuel : (f n : ℕ) → n < f → value 0 (show_fuel f n) ≡ n
unfolding show_fuel
value-show_fuel zero n h = absurd (omega arith)
value-show_fuel (suc f) n h = elim (Bool-cases (ltb n 10)) [
  | inl small ↦ rw small (omega (arith, value_digit 0 n))
  | inr big ↦ rw (big, value-append, value_digit) (ground (arith, value-show_fuel f (n / 10)))
]

value-show : (n : ℕ) → value 0 (show n) ≡ n
unfolding show
value-show n = value-show_fuel (suc n) n (omega arith)

-- Different numbers are printed differently.
pub show-injective : (m n : ℕ) → show m ≡ show n → m ≡ n
show-injective m n e = sym (value-show m) ∙ ap (value 0) e ∙ value-show n

-- The characters 0 to 9.
abbrev pub IsDigit : ℕ → Type 0
IsDigit c = (48 ≤ c) × (c ≤ 57)

show_fuel-IsDigit : (f n : ℕ) → All IsDigit (show_fuel f n)
unfolding show_fuel
show_fuel-IsDigit zero n = tt
show_fuel-IsDigit (suc f) n = elim (Bool-cases (ltb n 10)) [
  | inl small ↦ rw small (ground arith)
  | inr big ↦ rw big (All-append IsDigit _ _ (show_fuel-IsDigit f (n / 10)) (omega arith))
]

-- Every value on the way is at most the last one.
value_grows : (acc : ℕ) (s : Text) → acc ≤ value acc s
unfolding value
value_grows acc [] = omega arith
value_grows acc (c ∷ s) = omega (arith, value_grows (acc * 10 + (c - 48)) s)

parse_digits-value :
    (acc : ℕ) (s : Text)
    → All IsDigit s
    → value acc s ≤ u32_max
    → parse_digits acc s ≡ some (value acc s)
unfolding parse_digits value
parse_digits-value acc [] h fits = refl
parse_digits-value acc (c ∷ s) h fits =
    ground
      (arith, value_grows (acc * 10 + (c - 48)) s, parse_digits-value (acc * 10 + (c - 48)) s h.1)

parse_u32-value :
    (s : Text) → s ≢ [] → All IsDigit s → value 0 s ≤ u32_max → parse_u32 s ≡ some (value 0 s)
unfolding parse_u32
parse_u32-value [] ne h fits = absurd (ne refl)
parse_u32-value (c ∷ []) ne h fits = ground (arith, parse_digits-value 0 (c ∷ []) h)
parse_u32-value (c ∷ d ∷ s) ne h fits = ground (arith, parse_digits-value 0 (c ∷ d ∷ s) h)

append_cons-ne-nil : (s : Text) (c : ℕ) → s ++ c ∷ [] ≢ []
append_cons-ne-nil [] c e = cc
append_cons-ne-nil (d ∷ s) c e = cc

show-ne-nil : (n : ℕ) → show n ≢ []
unfolding show show_fuel
show-ne-nil n e = elim (Bool-cases (ltb n 10)) [
  | inl small ↦ cc (rw small at e)
  | inr big ↦ append_cons-ne-nil _ _ (rw big at e)
]

pub show-IsDigit : (n : ℕ) → All IsDigit (show n)
unfolding show
show-IsDigit n = show_fuel-IsDigit (suc n) n

-- A `u32` that was printed is read back.
pub parse_u32-show : (n : ℕ) → n ≤ u32_max → parse_u32 (show n) ≡ some n
parse_u32-show n h =
    parse_u32-value (show n) (show-ne-nil n) (unfold show in show_fuel-IsDigit (suc n) n)
      (rw value-show h)
    ∙ ap some (value-show n)
