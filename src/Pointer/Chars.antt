-- ===== src/Pointer/Chars.antt =====
-- The characters that a pointer gives a meaning.
use Prim.Native.Char.{Char, code}
use chain_weaver.Common.{Bool, true, ◌≡◌, arith, nat_eq}
use text.Mathlib.TextEquality.{Char-path}

abbrev pub slash : Char
slash = "/"

abbrev pub tilde : Char
tilde = "~"

abbrev pub digit_zero : Char
digit_zero = "0"

abbrev pub digit_one : Char
digit_one = "1"

-- `c` is the character `d`.
abbrev pub is_char : Char → Char → Bool
is_char d c = nat_eq (code c) (code d)

pub eq_of_is_char : (d c : Char) → is_char d c ≡ true → c ≡ d
eq_of_is_char d c h = Char-path c d (ground arith)
