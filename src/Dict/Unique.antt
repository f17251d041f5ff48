-- ===== src/Dict/Unique.antt =====
-- Dictionaries that have each key once, and `update` on them.
use chain_weaver.Common.{
  String, ◌≡◌, refl, Option, none, some, [], ◌∷◌, arith, inl, inr, Bool-cases, ◌==◌, eq_iff, ◌∙◌,
}
use chain_weaver.Dict.{Dict, lookup, insert, update}
use chain_weaver.Dict.Laws.{lookup-insert}

module _ {ℓ} {V : Type ℓ} where
  -- `a` if it is there, else `b`
  abbrev pub or_else : Option V → Option V → Option V
  or_else (some v) b = some v
  or_else none b = b

  abbrev pub IsDict : Dict V → Type ℓ
  IsDict [] = Unit
  IsDict ((k, v) ∷ d) = (lookup k d ≡ none) × IsDict d

  pub insert-IsDict : (k : String) (v : V) (d : Dict V) → IsDict d → IsDict (insert k v d)
  unfolding insert lookup
  insert-IsDict k v [] unique = (refl, tt)
  insert-IsDict k v ((j, w) ∷ d) (fresh, unique) = elim (Bool-cases (j == k)) [
    | inl same ↦ simp same (fresh, unique)
    | inr apart ↦ simp apart (
      ground (arith, lookup-insert k j v d, eq_iff j k, eq_iff k j, fresh, apart),
      insert-IsDict k v d unique,
    )
  ]

  pub lookup-update :
      (j : String) (d e : Dict V)
      → IsDict e
      → lookup j (update d e) ≡ or_else (lookup j e) (lookup j d)
  unfolding update lookup
  lookup-update j d [] unique = refl
  lookup-update j d ((k, v) ∷ e) (fresh, unique) =
      lookup-update j (insert k v d) e unique ∙ (elim (Bool-cases (k == j)) [
        | inl same ↦ ground (arith, lookup-insert k j v d, eq_iff k j, fresh, same)
        | inr apart ↦ ground (arith, lookup-insert k j v d, apart)
      ])
