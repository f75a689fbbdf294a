-- ===== src/Common/Results.antt =====
-- Rust's `anyhow::Result<A>`. An error is its text; `panic` is an unwinding task, which no
-- handler of the program catches.
use Prim.Native.Nat.{ℕ}
use mathlib.Core.List.{List}

-- A Rust `String` or `&str` as the list of its characters (Unicode scalar values).
abbrev pub Text : Type 0
Text = List ℕ

pub data Result {ℓ} (A : Type ℓ) : Type ℓ where
  ok : A → Result A
  err : Text → Result A
  panic : Result A

-- `r.context(c)`: the text of an error is the outermost context.
abbrev pub context {ℓ} : {A : Type ℓ} → Text → Result A → Result A
context c (ok a) = ok a
context c (err e) = err c
context c panic = panic
