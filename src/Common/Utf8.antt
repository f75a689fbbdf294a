-- ===== src/Common/Utf8.antt =====
-- UTF-8: `str::as_bytes` and `String::from_utf8`.
use Prim.Native.Nat.{ℕ, zero, suc, ◌+◌, ◌-◌, ◌*◌, ◌/◌, ◌%◌, ◌≤◌, ◌<◌}
use mathlib.Core.Path.{◌≡◌, refl}
use mathlib.Core.Logic.{◌⊎◌}
use mathlib.Core.Bool.{Bool, ◌&&◌, ◌||◌}
use mathlib.Core.Option.{Option, none, some}
use mathlib.Core.List.{List, [], ◌∷◌, ◌++◌}
use native.Mathlib.Omega.{arith}
use steel_proxy.Common.Tests.{ltb, leb, if◌then◌else◌}
use steel_proxy.Common.Results.{Text}
use steel_proxy.Common.Lists.{All, length, length-append}

unfoldable pub encode_char : ℕ → List ℕ
encode_char c =
    if ltb c 0x80
    then c ∷ []
    else if ltb c 0x800
    then (0xc0 + c / 64) ∷ (0x80 + c % 64) ∷ []
    else if ltb c 0x10000
    then (0xe0 + c / 4096) ∷ (0x80 + c / 64 % 64) ∷ (0x80 + c % 64) ∷ []
    else (0xf0 + c / 262144) ∷ (0x80 + c / 4096 % 64) ∷ (0x80 + c / 64 % 64) ∷ (0x80 + c % 64) ∷ []

-- `s.as_bytes()`
unfoldable pub as_bytes : Text → List ℕ
unfolding encode_char
as_bytes [] = []
as_bytes (c ∷ s) = encode_char c ++ as_bytes s

is_tail : ℕ → Bool
is_tail b = leb 0x80 b && leb b 0xbf

-- One character of two, three and four bytes; overlong forms and surrogates are refused.
decode_two : ℕ → List ℕ → Option (ℕ × List ℕ)
unfolding is_tail
decode_two a (b ∷ rest) = if is_tail b then some ((a - 0xc0) * 64 + (b - 0x80), rest) else none
decode_two a [] = none

is_three : ℕ → Bool
is_three c = leb 0x800 c && (ltb c 0xd800 || leb 0xe000 c)

decode_three : ℕ → List ℕ → Option (ℕ × List ℕ)
unfolding is_tail is_three
decode_three a (b ∷ c ∷ rest) =
    let v = (a - 0xe0) * 4096 + (b - 0x80) * 64 + (c - 0x80) in
    if is_tail b && is_tail c && is_three v then some (v, rest) else none
decode_three a (b ∷ []) = none
decode_three a [] = none

decode_four : ℕ → List ℕ → Option (ℕ × List ℕ)
unfolding is_tail
decode_four a (b ∷ c ∷ d ∷ rest) =
    let v = (a - 0xf0) * 262144 + (b - 0x80) * 4096 + (c - 0x80) * 64 + (d - 0x80) in
    if is_tail b && is_tail c && is_tail d && leb 0x10000 v && leb v 0x10ffff
    then some (v, rest)
    else none
decode_four a (b ∷ c ∷ []) = none
decode_four a (b ∷ []) = none
decode_four a [] = none

decode_char : List ℕ → Option (ℕ × List ℕ)
unfolding decode_two decode_three decode_four
decode_char [] = none
decode_char (a ∷ rest) =
    if ltb a 0x80
    then some (a, rest)
    else if leb 0xc2 a && leb a 0xdf
    then decode_two a rest
    else if leb 0xe0 a && leb a 0xef
    then decode_three a rest
    else if leb 0xf0 a && leb a 0xf4
    then decode_four a rest
    else none

abbrev cons_some : ℕ → Option Text → Option Text
cons_some c none = none
cons_some c (some s) = some (c ∷ s)

-- A character takes a byte at least, so the number of bytes is enough fuel.
decode_loop : ℕ → List ℕ → Option Text
decode_loop fuel [] = some []
decode_loop zero (b ∷ bs) = none
decode_loop (suc fuel) (b ∷ bs) = elim (decode_char (b ∷ bs)) [
  | none ↦ none
  | some (c, rest) ↦ cons_some c (decode_loop fuel rest)
]

-- `String::from_utf8(bytes)`
unfoldable pub from_utf8 : List ℕ → Option Text
unfolding decode_loop decode_char
from_utf8 bytes = decode_loop (length bytes) bytes

-- A Unicode scalar value.
abbrev pub IsScalar : ℕ → Type 0
IsScalar c = (c < 0x110000) × ((c < 0xd800) ⊎ (0xe000 ≤ c))

decode_char-encode_char :
    (c : ℕ) (rest : List ℕ) → IsScalar c → decode_char (encode_char c ++ rest) ≡ some (c, rest)
unfolding decode_char encode_char
decode_char-encode_char c rest h = ground arith

decode_loop_step :
    (fuel : ℕ) (bytes : List ℕ) (c : ℕ) (rest : List ℕ)
    → decode_char bytes ≡ some (c, rest)
    → decode_loop (suc fuel) bytes ≡ cons_some c (decode_loop fuel rest)
unfolding decode_loop
decode_loop_step fuel [] c rest e = unfold decode_char in cc
decode_loop_step fuel (b ∷ bs) c rest e = rw (e, decode_loop)

length-encode_char : (c : ℕ) → 1 ≤ length (encode_char c)
unfolding encode_char
length-encode_char c = ground arith

decode_loop-as_bytes :
    (fuel : ℕ) (s : Text)
    → All IsScalar s
    → length (as_bytes s) ≤ fuel
    → decode_loop fuel (as_bytes s) ≡ some s
unfolding as_bytes
decode_loop-as_bytes fuel [] h enough = unfold decode_loop in refl
decode_loop-as_bytes zero (c ∷ s) h enough =
    absurd (omega (arith, length-append (encode_char c) (as_bytes s), length-encode_char c))
decode_loop-as_bytes (suc fuel) (c ∷ s) h enough = rw (
  decode_loop_step fuel _ c (as_bytes s) (decode_char-encode_char c (as_bytes s) h.0),
  decode_loop-as_bytes fuel s h.1
      (omega (arith, length-append (encode_char c) (as_bytes s), length-encode_char c)),
)

-- Decoding gives back the text that was encoded.
pub from_utf8-as_bytes : (s : Text) → All IsScalar s → from_utf8 (as_bytes s) ≡ some s
unfolding from_utf8
from_utf8-as_bytes s h = decode_loop-as_bytes (length (as_bytes s)) s h (omega arith)
