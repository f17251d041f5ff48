-- ===== src/Pointer/RoundTrip.antt =====
-- The pointer of RFC 6901 for a path of tokens, and what `parse_pointer` reads from it.
use Prim.Native.Char.{Char}
use chain_weaver.Common.{
  String, false, List, [], ◌∷◌, ◌≡◌, refl, ap, ◌∙◌, inl, inr, arith, map, Bool-cases, if◌then◌else◌,
}
use chain_weaver.Pointer.Chars.{slash, tilde, digit_zero, digit_one, is_char, eq_of_is_char}
use chain_weaver.Pointer.{found, split_slash, replace_pair, decode_token, parse_pointer}

unfoldable pub escape_token : String → String
escape_token String.[] = String.[]
escape_token (String.◌∷◌ c s) =
    let rest = escape_token s in
    if is_char tilde c
    then String.◌∷◌ tilde (String.◌∷◌ digit_zero rest)
    else if is_char slash c
    then String.◌∷◌ tilde (String.◌∷◌ digit_one rest)
    else String.◌∷◌ c rest

followed_by : String → String → String
followed_by String.[] t = t
followed_by (String.◌∷◌ c s) t = String.◌∷◌ c (followed_by s t)

unfoldable pub pointer_of : List String → String
unfolding escape_token followed_by
pointer_of [] = String.[]
pointer_of (t ∷ ts) = String.◌∷◌ slash (followed_by (escape_token t) (pointer_of ts))

followed_by-nil : (s : String) → followed_by s String.[] ≡ s
unfolding followed_by
followed_by-nil String.[] = refl
followed_by-nil (String.◌∷◌ c s) = ap (String.◌∷◌ c) (followed_by-nil s)

-- A character that does not begin the pattern stays.
replace_pair-skip :
    (a b by c : Char) (s : String)
    → is_char a c ≡ false
    → replace_pair a b by (String.◌∷◌ c s) ≡ String.◌∷◌ c (replace_pair a b by s)
unfolding replace_pair
replace_pair-skip a b by c String.[] h = refl
replace_pair-skip a b by c (String.◌∷◌ d s) h = rw h

-- What the first of the two replacements leaves.
half_decoded : String → String
half_decoded String.[] = String.[]
half_decoded (String.◌∷◌ c s) =
    let rest = half_decoded s in
    if is_char tilde c then String.◌∷◌ tilde (String.◌∷◌ digit_zero rest) else String.◌∷◌ c rest

-- A `~` before a zero stays, and so does the zero.
skip_zero :
    (d by : Char) (s : String)
    → is_char d digit_zero ≡ false
    → replace_pair tilde d by (String.◌∷◌ tilde (String.◌∷◌ digit_zero s))
      ≡ String.◌∷◌ tilde (String.◌∷◌ digit_zero (replace_pair tilde d by s))
unfolding replace_pair
skip_zero d by s h = rw h (ap (String.◌∷◌ tilde) (replace_pair-skip tilde d by digit_zero s refl))

slash_pair :
    (s : String)
    → replace_pair tilde digit_one slash (String.◌∷◌ tilde (String.◌∷◌ digit_one s))
      ≡ String.◌∷◌ slash (replace_pair tilde digit_one slash s)
unfolding replace_pair
slash_pair s = refl

tilde_pair :
    (s : String)
    → replace_pair tilde digit_zero tilde (String.◌∷◌ tilde (String.◌∷◌ digit_zero s))
      ≡ String.◌∷◌ tilde (replace_pair tilde digit_zero tilde s)
unfolding replace_pair
tilde_pair s = refl

slashes_back : (s : String) → replace_pair tilde digit_one slash (escape_token s) ≡ half_decoded s
unfolding escape_token half_decoded
slashes_back String.[] = unfold replace_pair in refl
slashes_back (String.◌∷◌ c s) = elim (Bool-cases (is_char tilde c)) [
  | inl is_tilde ↦ rw is_tilde (
      skip_zero digit_one slash (escape_token s) refl
      ∙ ap (λ t. String.◌∷◌ tilde (String.◌∷◌ digit_zero t)) (slashes_back s))
  | inr not_tilde ↦ rw not_tilde (elim (Bool-cases (is_char slash c)) [
    | inl is_slash ↦ rw is_slash (
        slash_pair (escape_token s)
        ∙ rw (eq_of_is_char slash c is_slash) (ap (String.◌∷◌ slash) (slashes_back s)))
    | inr not_slash ↦ rw not_slash (
        replace_pair-skip tilde digit_one slash c (escape_token s) not_tilde
        ∙ ap (String.◌∷◌ c) (slashes_back s))
  ])
]

tildes_back : (s : String) → replace_pair tilde digit_zero tilde (half_decoded s) ≡ s
unfolding half_decoded
tildes_back String.[] = unfold replace_pair in refl
tildes_back (String.◌∷◌ c s) = elim (Bool-cases (is_char tilde c)) [
  | inl is_tilde ↦ rw is_tilde (
      tilde_pair (half_decoded s)
      ∙ rw (eq_of_is_char tilde c is_tilde) (ap (String.◌∷◌ tilde) (tildes_back s)))
  | inr not_tilde ↦ rw not_tilde (
      replace_pair-skip tilde digit_zero tilde c (half_decoded s) not_tilde
      ∙ ap (String.◌∷◌ c) (tildes_back s))
]

decode-escape : (t : String) → decode_token (escape_token t) ≡ t
unfolding decode_token
decode-escape t = rw (slashes_back t) (tildes_back t)

-- An escaped token is not split.
split-escape :
    (s r : String)
    → split_slash (followed_by (escape_token s) r)
      ≡ (followed_by (escape_token s) (split_slash r).0, (split_slash r).1)
unfolding split_slash followed_by escape_token
split-escape String.[] r = refl
split-escape (String.◌∷◌ c s) r = ground (arith, split-escape s r)

split-slash :
    (s : String) → split_slash (String.◌∷◌ slash s) ≡ ("", (split_slash s).0 ∷ (split_slash s).1)
unfolding split_slash
split-slash s = refl

split-pointer_of : (ts : List String) → split_slash (pointer_of ts) ≡ ("", map escape_token ts)
unfolding pointer_of
split-pointer_of [] = unfold split_slash in refl
split-pointer_of (t ∷ ts) =
    split-slash (followed_by (escape_token t) (pointer_of ts))
    ∙ rw (split-escape t (pointer_of ts), split-pointer_of ts, followed_by-nil (escape_token t))

map-decode-escape : (ts : List String) → map decode_token (map escape_token ts) ≡ ts
map-decode-escape [] = refl
map-decode-escape (t ∷ ts) = cc (decode-escape t, map-decode-escape ts)

-- The pointer of any path of tokens is read back as that path.
pub parse_pointer-pointer_of : (ts : List String) → parse_pointer (pointer_of ts) ≡ found ts
unfolding pointer_of parse_pointer
parse_pointer-pointer_of [] = refl
parse_pointer-pointer_of (t ∷ ts) =
    rw (split-escape t (pointer_of ts), split-pointer_of ts, followed_by-nil (escape_token t))
      (cc (decode-escape t, map-decode-escape ts))
