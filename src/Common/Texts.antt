-- ===== src/Common/Texts.antt =====
-- The string operations of Rust's standard library that the program calls, over native texts:
-- `str::contains` of a character, `str::split` at a character, `==` and `format!` by `++`.
use Prim.Native.Char.{Char, code}
use Prim.Native.String.{String}
use mathlib.Core.Bool.{Bool, false, ◌||◌}
use mathlib.Core.List.{List, [], ◌∷◌}
use text.Mathlib.Text.{◌==◌ as str_eq}
use krossbar_bus.Common.Tests.{◌==◌, if◌then◌else◌}

abbrev pub text_eq : String → String → Bool
text_eq = str_eq

unfoldable pub contains_char : Char → String → Bool
contains_char c String.[] = false
contains_char c (String.◌∷◌ d s) = code d == code c || contains_char c s

-- Puts a character in front of the first section.
unfoldable pub cons_first : Char → List String → List String
cons_first d [] = String.◌∷◌ d String.[] ∷ []
cons_first d (s ∷ ss) = String.◌∷◌ d s ∷ ss

-- One section more than there are separators; two separators in a row hold an empty section.
unfoldable pub split : Char → String → List String
unfolding cons_first
split c String.[] = String.[] ∷ []
split c (String.◌∷◌ d s) =
    let rest = split c s in if code d == code c then String.[] ∷ rest else cons_first d rest
