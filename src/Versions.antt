-- ===== src/Versions.antt =====
-- chainweaver/_versions.py: the compatibility of stamped artifact versions by their MAJOR part.
use Prim.Native.Char.{code}
use chain_weaver.Common.{
  String, Bool, true, false, Option, none, some, ◌≡◌, nat_eq, ◌==◌, arith, if◌then◌else◌,
}
use chain_weaver.Value.{ℤ, pos, negsuc}
use chain_weaver.Pointer.{IntOf}

-- `version.split(".", 1)[0]`; the `strip` before it changes nothing, since `int` strips too.
before_dot : String → String
before_dot String.[] = String.[]
before_dot (String.◌∷◌ c s) =
    let rest = before_dot s in if nat_eq (code c) 46 then String.[] else String.◌∷◌ c rest

or_legacy : Option ℤ → ℤ
or_legacy none = pos 0
or_legacy (some n) = n

same_number : ℤ → ℤ → Bool
same_number (pos a) (pos b) = nat_eq a b
same_number (negsuc a) (negsuc b) = nat_eq a b
same_number (pos a) (negsuc b) = false
same_number (negsuc a) (pos b) = false

module _ (int_of : IntOf) where
  -- An absent version, an empty one and one that is no number all have the legacy major 0.
  unfoldable pub major : Option String → ℤ
  unfolding before_dot or_legacy
  major none = pos 0
  major (some version) = if version == "" then pos 0 else or_legacy (int_of (before_dot version))

  unfoldable pub same_major : Option String → String → Bool
  unfolding same_number major
  same_major found current = same_number (major found) (major (some current))

same_number_refl : (n : ℤ) → same_number n n ≡ true
unfolding same_number
same_number_refl (pos n) = ground arith
same_number_refl (negsuc n) = ground arith

-- A version is compatible with itself.
pub same_major_refl : (int_of : IntOf) (v : String) → same_major int_of (some v) v ≡ true
unfolding same_major
same_major_refl int_of v = same_number_refl (major int_of (some v))
