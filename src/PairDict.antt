-- ===== src/PairDict.antt =====
-- Python's `dict` with pairs of texts as keys, as a list of items in insertion order.
pub mod Laws
use chain_weaver.Common.{
  String, Bool, true, false, Option, none, some, List, [], ◌∷◌, ◌==◌, ◌&&◌, not, if◌then◌else◌,
}

abbrev pub Key : Type 0
Key = String × String

abbrev pub key_eq : Key → Key → Bool
key_eq j k = (j.0 == k.0) && (j.1 == k.1)

abbrev pub PairDict {ℓ} : Type ℓ → Type ℓ
PairDict V = List (Key × V)

module _ {ℓ} {V : Type ℓ} where
  -- d.get(k)
  unfoldable pub find : Key → PairDict V → Option V
  find k [] = none
  find k ((j, v) ∷ d) = if key_eq j k then some v else find k d

  abbrev pub is_found : Option V → Bool
  is_found none = false
  is_found (some v) = true

  -- d[k] = v
  unfoldable pub store : Key → V → PairDict V → PairDict V
  store k v [] = (k, v) ∷ []
  store k v ((j, w) ∷ d) = if key_eq j k then (j, v) ∷ d else (j, w) ∷ store k v d

  -- `del d[k]` for each key whose value passes the test.
  unfoldable pub drop_where : (V → Bool) → PairDict V → PairDict V
  drop_where p [] = []
  drop_where p ((j, w) ∷ d) = let rest = drop_where p d in if p w then rest else (j, w) ∷ rest
