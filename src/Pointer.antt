-- ===== src/Pointer.antt =====
-- chainweaver/_pointer.py: JSON pointers, read from a text and followed into a value.
mod Chars
mod Tests
pub mod RoundTrip
pub mod Walk
use Prim.Native.Nat.{◌/◌}
use Prim.Native.Char.{Char, code}
use Prim.Native.String
use Prim.Native.String.{◌++◌ as text_append}
use chain_weaver.Common.{
  ℕ, zero, suc, ◌+◌, ◌-◌, ◌*◌, String, Bool, true, false, Option, none, some, List, [], ◌∷◌, ◌==◌,
  ◌&&◌, ◌||◌, leb, nat_eq, map, if◌then◌else◌,
}
use chain_weaver.Value.{
  ℤ, pos, negsuc, Value, array, object, Items, nil, cons, Fields, no_fields, field,
}
use Chars.{slash, tilde, digit_zero, digit_one, is_char}

-- POINTER_PREFIX and `is_pointer`
unfoldable pub is_pointer : String → Bool
is_pointer String.[] = false
is_pointer (String.◌∷◌ c s) = is_char slash c

-- What may go wrong: PointerResolutionError, by its `failed_at`.
pub data Resolved {ℓ} (A : Type ℓ) : Type ℓ where
  found : A → Resolved A
  failed_at : String → Resolved A

-- `s.split("/")`, the first piece apart.
split_slash : String → String × List String
split_slash String.[] = (String.[], [])
split_slash (String.◌∷◌ c s) =
    let (piece, pieces) = split_slash s in
    if is_char slash c then (String.[], piece ∷ pieces) else (String.◌∷◌ c piece, pieces)

-- `s.replace(<first><second>, <by>)` for a pattern of two different characters.
replace_pair : (first second by : Char) → String → String
replace_pair first second by String.[] = String.[]
replace_pair first second by (String.◌∷◌ c String.[]) = String.◌∷◌ c String.[]
replace_pair first second by (String.◌∷◌ c (String.◌∷◌ d s)) =
    let matched = String.◌∷◌ by (replace_pair first second by s) in
    let kept = String.◌∷◌ c (replace_pair first second by (String.◌∷◌ d s)) in
    if is_char first c && is_char second d then matched else kept

-- `t.replace("~1", "/").replace("~0", "~")`
decode_token : String → String
unfolding replace_pair
decode_token t = replace_pair tilde digit_zero tilde (replace_pair tilde digit_one slash t)

unfoldable pub parse_pointer : String → Resolved (List String)
unfolding split_slash decode_token
parse_pointer String.[] = found []
parse_pointer (String.◌∷◌ c s) =
    let (piece, pieces) = split_slash s in
    if is_char slash c
    then found (map decode_token (piece ∷ pieces))
    else failed_at (String.◌∷◌ c s)

-- Python's `int(text)`; `none` is ValueError.
abbrev pub IntOf : Type 0
IntOf = String → Option ℤ

pub get_field : String → Fields → Option Value
get_field k no_fields = none
get_field k (field j v fs) = if j == k then some v else get_field k fs

pub get_item : ℕ → Items → Option Value
get_item i nil = none
get_item zero (cons v vs) = some v
get_item (suc i) (cons v vs) = get_item i vs

item_at : Option ℤ → Items → Option Value
item_at none vs = none
item_at (some (negsuc n)) vs = none
item_at (some (pos n)) vs = get_item n vs

module _ (int_of : IntOf) where
  -- One token of the walk; `none` is each of the four errors.
  step_into : String → Value → Option Value
  unfolding get_field get_item item_at
  step_into token (object fs) = get_field token fs
  step_into token (array vs) = item_at (int_of token) vs
  step_into token _ = none

  -- The loop of `resolve_pointer`; `path` is the pointer of the tokens that are done.
  walk : String → Value → List String → Resolved Value
  walk path v [] = found v
  walk path v (token ∷ tokens) =
      let here = text_append path (String.◌∷◌ slash token) in
      elim (step_into token v) [ none ↦ failed_at here | some w ↦ walk here w tokens ]

  walk_from : Value → Resolved (List String) → Resolved Value
  walk_from v (failed_at p) = failed_at p
  walk_from v (found tokens) = walk "" v tokens

  unfoldable pub resolve_pointer : Value → String → Resolved Value
  unfolding walk step_into walk_from parse_pointer
  resolve_pointer v pointer = walk_from v (parse_pointer pointer)
