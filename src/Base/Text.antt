-- ===== src/Base/Text.antt =====
-- JavaScript strings: truthiness, and the UTF-16 code units that `length` and regular expressions
-- see.
use Prim.Native.Nat.{ℕ, ◌+◌, ◌-◌, ◌/◌, ◌%◌}
use Prim.Native.Char.{code}
use Prim.Native.String.{String}
use mathlib.Core.Bool.{Bool, not}
use mathlib.Core.List.{List, [], ◌∷◌}
use mathlib.Core.Option.{Option, none, some}
use text.Mathlib.Text.{◌==◌}
use mathlib.Core.Path.{◌≡◌}
use mathlib.Core.Logic.{◌≢◌, ◌⊎◌, inl, inr}
use native.Mathlib.Omega.{arith}
use text.Mathlib.TextEquality.{eq_iff}
use client_server_with_lb_de.Base.Tests.{ltb, if◌then◌else◌, Bool-cases}

-- A string is falsy exactly when it is empty.
abbrev pub truthy : String → Bool
truthy s = not (s == "")

-- `s || fallback`, for an optional string.
abbrev pub or_else : Option String → String → String
or_else none fallback = fallback
or_else (some s) fallback = if s == "" then fallback else s

-- The code units of one code point: a surrogate pair above the basic plane.
abbrev units_of : ℕ → List ℕ → List ℕ
units_of c rest =
    if ltb c 0x10000
    then c ∷ rest
    else (0xd800 + (c - 0x10000) / 0x400) ∷ (0xdc00 + (c - 0x10000) % 0x400) ∷ rest

-- The UTF-16 code units of a string.
abbrev pub units : String → List ℕ
units String.[] = []
units (String.◌∷◌ c s) = units_of (code c) (units s)

-- Equality of texts is decided.
pub String-cases : (s t : String) → (s ≡ t) ⊎ (s ≢ t)
String-cases s t = elim (Bool-cases (s == t)) [
  | inl same ↦ inl ((eq_iff s t).0 same)
  | inr other ↦ inr (λ e. ground (arith, eq_iff s t))
]
