-- ===== src/PairDict/Laws.antt =====
-- The laws by which the other modules reason about dictionaries keyed by pairs.
use chain_weaver.Common.{
  Bool, true, Option, none, some, [], ◌∷◌, ◌≡◌, refl, sym, ap, ◌∙◌, inl, inr, arith, eq_iff,
  eq_refl, Bool-cases, if◌then◌else◌,
}
use chain_weaver.PairDict.{Key, key_eq, PairDict, find, store, drop_where}

pub key_eq_refl : (k : Key) → key_eq k k ≡ true
key_eq_refl k = ground (arith, eq_refl k.0, eq_refl k.1)

pub key_eq_iff : (j k : Key) → key_eq j k ≡ true → j ≡ k
key_eq_iff j k same =
    let first : j.0 ≡ k.0 = ground (arith, same, eq_iff j.0 k.0) in
    let second : j.1 ≡ k.1 = ground (arith, same, eq_iff j.1 k.1) in λ i. (first i, second i)

module _ {ℓ} {V : Type ℓ} where
  pub find-store :
      (k j : Key) (v : V) (d : PairDict V)
      → find j (store k v d) ≡ (if key_eq k j then some v else find j d)
  unfolding find store
  find-store k j v [] = refl
  find-store k j v ((i, w) ∷ d) = ground (
    arith,
    eq_iff k.0 j.0,
    eq_iff k.1 j.1,
    eq_iff i.0 k.0,
    eq_iff i.1 k.1,
    eq_iff i.0 j.0,
    eq_iff i.1 j.1,
    find-store k j v d,
  )

  -- No key is there twice.
  abbrev pub Unique : PairDict V → Type ℓ
  Unique [] = Unit
  Unique ((k, v) ∷ d) = (find k d ≡ none) × Unique d

  pub store-Unique : (k : Key) (v : V) (d : PairDict V) → Unique d → Unique (store k v d)
  unfolding store find
  store-Unique k v [] unique = (refl, tt)
  store-Unique k v ((j, w) ∷ d) (new, unique) = elim (Bool-cases (key_eq j k)) [
    | inl same ↦ simp same (new, unique)
    | inr other ↦ simp other (
      find-store k j v d
          ∙ ground
              (arith, other, new, eq_iff j.0 k.0, eq_iff j.1 k.1, eq_iff k.0 j.0, eq_iff k.1 j.1),
      store-Unique k v d unique,
    )
  ]

  -- What a sweep leaves of an entry.
  abbrev pub kept : (V → Bool) → Option V → Option V
  kept p none = none
  kept p (some v) = if p v then none else some v

  pub find-drop_where :
      (p : V → Bool) (k : Key) (d : PairDict V)
      → Unique d
      → find k (drop_where p d) ≡ kept p (find k d)
  unfolding find drop_where
  find-drop_where p k [] unique = refl
  find-drop_where p k ((j, w) ∷ d) (new, unique) =
      let ih = find-drop_where p k d unique in
      elim (Bool-cases (key_eq j k)) [
        | inl same ↦
            let gone : find k d ≡ none = ap (λ i. find i d) (sym (key_eq_iff j k same)) ∙ new in
            elim (Bool-cases (p w)) [
              | inl out ↦ simp (same, out, ih, gone) refl
              | inr stays ↦ simp (same, stays) refl
            ]
        | inr other ↦ elim (Bool-cases (p w)) [
          | inl out ↦ simp (other, out, ih) refl
          | inr stays ↦ simp (other, stays, ih) refl
        ]
      ]

  pub drop_where-Unique : (p : V → Bool) (d : PairDict V) → Unique d → Unique (drop_where p d)
  unfolding drop_where
  drop_where-Unique p [] unique = tt
  drop_where-Unique p ((j, w) ∷ d) (new, unique) = elim (Bool-cases (p w)) [
    | inl out ↦ simp out (drop_where-Unique p d unique)
    | inr stays ↦
        simp stays (find-drop_where p j d unique ∙ simp new refl, drop_where-Unique p d unique)
  ]
