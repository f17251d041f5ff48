-- ===== src/Pointer/Walk.antt =====
-- What a pointer refers to, as a relation, against `resolve_pointer`.
use chain_weaver.Common.{
  ℕ, zero, suc, String, false, Option, none, some, List, [], ◌∷◌, ◌≡◌, refl, sym, ap, ◌↔◌, inl, inr,
  arith, Option-cases, Bool-cases, subst, ◌==◌, eq_iff, eq_refl,
}
use chain_weaver.Value.{
  ℤ, pos, negsuc, Value, array, object, Items, nil, cons, Fields, no_fields, field,
}
use chain_weaver.Pointer.{
  IntOf, found, get_field, get_item, item_at, step_into, walk, resolve_pointer,
}
use chain_weaver.Pointer.RoundTrip.{pointer_of, parse_pointer-pointer_of}

-- The value is at this place of the items.
pub data ItemAt (v : Value) : ℕ → Items → Type 0 where
  first : {vs : Items} → ItemAt v 0 (cons v vs)
  later : {n : ℕ} {w : Value} {vs : Items} → ItemAt v n vs → ItemAt v (suc n) (cons w vs)

-- The value is that of the field with this key.
pub data FieldAt (t : String) (v : Value) : Fields → Type 0 where
  this_field : {fs : Fields} → FieldAt t v (field t v fs)
  other_field :
      {j : String} {w : Value} {fs : Fields}
      → (j == t) ≡ false
      → FieldAt t v fs
      → FieldAt t v (field j w fs)

value_of : Value → Option Value → Value
value_of default none = default
value_of default (some v) = v

get_item-ItemAt : (n : ℕ) (vs : Items) {v : Value} → get_item n vs ≡ some v → ItemAt v n vs
unfolding get_item value_of
get_item-ItemAt n nil e = ground (arith, e)
get_item-ItemAt zero (cons w vs) {v} e =
    subst (λ x. ItemAt x 0 (cons w vs)) (ap (value_of w) e) first
get_item-ItemAt (suc n) (cons w vs) e = later (get_item-ItemAt n vs e)

ItemAt-get_item : {v : Value} {n : ℕ} {vs : Items} → ItemAt v n vs → get_item n vs ≡ some v
unfolding get_item
ItemAt-get_item first = refl
ItemAt-get_item (later at) = ItemAt-get_item at

get_field-FieldAt :
    (t : String) (fs : Fields) {v : Value} → get_field t fs ≡ some v → FieldAt t v fs
unfolding get_field value_of
get_field-FieldAt t no_fields e = ground (arith, e)
get_field-FieldAt t (field j w fs) {v} e = elim (Bool-cases (j == t)) [
  | inl same ↦
      subst (λ k. FieldAt t v (field k w fs)) (sym ((eq_iff j t).0 same))
        (subst (λ x. FieldAt t x (field t w fs)) (ap (value_of w) (simp same at e)) this_field)
  | inr other ↦ other_field other (get_field-FieldAt t fs (simp other at e))
]

FieldAt-get_field :
    {t : String} {v : Value} {fs : Fields} → FieldAt t v fs → get_field t fs ≡ some v
unfolding get_field
FieldAt-get_field {t} this_field = simp (eq_refl t) refl
FieldAt-get_field (other_field other at) = simp other (FieldAt-get_field at)

-- The path of tokens leads from the first value to the second: by the fields of an object, and into an
-- array by the places that `int` reads off the tokens.
pub data Leads (int_of : IntOf) (w : Value) : Value → List String → Type 0 where
  here : Leads int_of w w []
  by_field :
      {t : String} {ts : List String} {fs : Fields} {v : Value}
      → FieldAt t v fs
      → Leads int_of w v ts
      → Leads int_of w (object fs) (t ∷ ts)
  by_index :
      {t : String} {ts : List String} {vs : Items} {v : Value} (n : ℕ)
      → int_of t ≡ some (pos n)
      → ItemAt v n vs
      → Leads int_of w v ts
      → Leads int_of w (array vs) (t ∷ ts)

item_at-eq_some :
    (o : Option ℤ) (vs : Items) {v : Value}
    → item_at o vs ≡ some v
    → (n : ℕ) × (o ≡ some (pos n)) × (get_item n vs ≡ some v)
unfolding item_at
item_at-eq_some none vs h = ground arith
item_at-eq_some (some (pos n)) vs h = (n, refl, h)
item_at-eq_some (some (negsuc n)) vs h = ground arith

module _ (int_of : IntOf) where
  Leads-step :
      {w u : Value} {ts : List String} (t : String) (v : Value)
      → step_into int_of t v ≡ some u
      → Leads int_of w u ts
      → Leads int_of w v (t ∷ ts)
  unfolding step_into
  Leads-step t (object fs) h l = by_field (get_field-FieldAt t fs h) l
  Leads-step t (array vs) h l =
      let (n, spelled, item) = item_at-eq_some (int_of t) vs h in
      by_index n spelled (get_item-ItemAt n vs item) l
  Leads-step t Value.null h l = ground arith
  Leads-step t (Value.bool b) h l = ground arith
  Leads-step t (Value.num n) h l = ground arith
  Leads-step t (Value.text s) h l = ground arith

  walk_sound :
      (ts : List String) (path : String) (v : Value) {w : Value}
      → walk int_of path v ts ≡ found w
      → Leads int_of w v ts
  unfolding walk
  walk_sound [] path v {w} h = subst (λ x. Leads int_of w x []) (ground arith) here
  walk_sound (t ∷ ts) path v h = elim (Option-cases (step_into int_of t v)) [
    | inl missing ↦ ground (arith, missing)
    | inr (u, there) ↦ Leads-step t v there (walk_sound ts _ u (rw (there, walk) at h))
  ]

  walk_complete :
      {w v : Value} {ts : List String} (path : String)
      → Leads int_of w v ts
      → walk int_of path v ts ≡ found w
  unfolding walk step_into item_at
  walk_complete path here = refl
  walk_complete path (by_field h l) = rw (FieldAt-get_field h, walk) (walk_complete _ l)
  walk_complete path (by_index n spelled item l) =
      rw (spelled, ItemAt-get_item item, walk) (walk_complete _ l)

  -- Of the pointer that spells a path, `resolve_pointer` returns a value exactly if the path leads
  -- to it, whatever texts `int` accepts.
  pub resolve_pointer_iff :
      (v w : Value) (ts : List String)
      → (resolve_pointer int_of v (pointer_of ts) ≡ found w) ↔ Leads int_of w v ts
  unfolding resolve_pointer
  resolve_pointer_iff v w ts =
      rw (parse_pointer-pointer_of ts) (walk_sound ts "" v, walk_complete "")
