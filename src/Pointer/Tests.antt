-- ===== src/Pointer/Tests.antt =====
-- The theorems on pointers at concrete paths and values.
use chain_weaver.Common.{String, none, some, ◌==◌, if◌then◌else◌, List, [], ◌∷◌, ◌≡◌, ◌↔◌}
use chain_weaver.Value.{Value, num, pos, array, object, nil, cons, no_fields, field, null}
use chain_weaver.Pointer.{IntOf, found, parse_pointer, resolve_pointer}
use chain_weaver.Pointer.RoundTrip.{pointer_of, parse_pointer-pointer_of}
use chain_weaver.Pointer.Walk.{Leads, resolve_pointer_iff}

abbrev payload : Value
payload = object (field "a/b" (array (cons null (cons (num (pos 5)) nil))) no_fields)

abbrev small_int : IntOf
small_int text = if text == "1" then some (pos 1) else none

abbrev path : List String
path = "a/b" ∷ "1" ∷ []

parse_pointer-pointer_of_example : parse_pointer (pointer_of path) ≡ found path
parse_pointer-pointer_of_example = parse_pointer-pointer_of path

resolve_pointer_iff_example :
    (resolve_pointer small_int payload (pointer_of path) ≡ found (num (pos 5)))
    ↔ Leads small_int (num (pos 5)) payload path
resolve_pointer_iff_example = resolve_pointer_iff small_int payload (num (pos 5)) path
