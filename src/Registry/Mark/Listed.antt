-- ===== src/Registry/Mark/Listed.antt =====
-- What `list_flows` lists: the flows under the keys of the store, each as it is there.
use chain_weaver.Common.{
  String, Bool, true, false, Option, none, some, List, [], ◌∷◌, ◌≡◌, refl, sym, ap, ◌∙◌, inl, inr,
  arith, ◌&&◌, ◌||◌, not, All, any, Bool-cases, Option-cases, if◌then◌else◌,
}
use chain_weaver.PairDict.{Key, key_eq, PairDict, find, is_found}
use chain_weaver.PairDict.Laws.{key_eq_refl, key_eq_iff}
use chain_weaver.Registry.{AnyFlow, Versions, Outcome, gives, flow_key, load_flow}
use chain_weaver.Registry.Mark.{keys_of, add_flow, is_stale, list_from, list_flows}
use chain_weaver.Registry.Mark.Marked.{IsKeyed, is_marked, AllFound}

either : (x y a b t : Bool) → x ≡ (a && t) → y ≡ (b && t) → (x || y) ≡ ((a || b) && t)
either x y a b t first rest = ground (arith, first, rest)

-- The keys of a dictionary are there.
keys-found :
    (part flows : PairDict AnyFlow)
    → ((k : Key) → is_found (find k part) ≡ true → is_found (find k flows) ≡ true)
    → any (λ key. not (is_found (find key flows))) (keys_of part) ≡ false
unfolding find
keys-found [] flows inside = refl
keys-found ((key, f) ∷ part) flows inside =
    let this = inside key (simp (key_eq_refl key) refl) in
    let rest = keys-found part flows (λ k there. inside k (elim (Bool-cases (key_eq key k)) [
      | inl same ↦ simp same refl
      | inr other ↦ simp other there
    ])) in
    simp (this, rest) refl

all_found :
    (keys : List Key) (flows : PairDict AnyFlow)
    → any (λ key. not (is_found (find key flows))) keys ≡ false
    → All (λ key. is_found (find key flows) ≡ true) keys
all_found [] flows none_missing = tt
all_found (key ∷ keys) flows none_missing =
    (ground (arith, none_missing), all_found keys flows (ground (arith, none_missing)))

pub key-listed :
    (k : Key) (flow : AnyFlow) (flows : PairDict AnyFlow)
    → find k flows ≡ some flow
    → any (λ key. key_eq key k) (keys_of flows) ≡ true
unfolding find
key-listed k flow [] found = absurd (ground (arith, ap is_found found))
key-listed k flow ((key, f) ∷ flows) found = elim (Bool-cases (key_eq key k)) [
  | inl same ↦ simp same refl
  | inr other ↦ simp other (key-listed k flow flows (simp_found other found))
]
  where
    simp_found :
        key_eq key k ≡ false
        → (if key_eq key k then some f else find k flows) ≡ some flow
        → find k flows ≡ some flow
    simp_found off e = sym (simp off refl) ∙ e

-- What is documented of `sorted`, as far as it is used: it gives the same elements.
pub record IsSorting (sorted : List Key → List Key) : Type 0 where
  pub same_elements : (test : Key → Bool) (keys : List Key) → any test (sorted keys) ≡ any test keys

module _ (versions : Versions) (name schema_hash : String) where
  -- What is listed of keys that are all there.
  pub record IsListing (keys : List Key) (flows : PairDict AnyFlow) (out : Outcome (List AnyFlow))
      : Type 0 where
    pub listed : List AnyFlow
    pub given : out ≡ gives listed
    pub found : AllFound flows listed
    pub tests :
        (k : Key) (flow : AnyFlow)
        → find k flows ≡ some flow
        → any (λ f. is_marked name schema_hash f k) listed
          ≡ (any (λ key. key_eq key k) keys && is_stale name schema_hash flow)

  head_test :
      (key k : Key) (f flow : AnyFlow) (flows : PairDict AnyFlow)
      → find key flows ≡ some f
      → find k flows ≡ some flow
      → flow_key f ≡ key
      → is_marked name schema_hash f k ≡ (key_eq key k && is_stale name schema_hash flow)
  head_test key k f flow flows at e own =
      ap (λ j. key_eq j k && is_stale name schema_hash f) own ∙ elim (Bool-cases (key_eq key k)) [
        | inl same ↦
            let one : f ≡ flow =
              ap (out_of f) (sym at ∙ ap (λ j. find j flows) (key_eq_iff key k same) ∙ e) in
            ap (λ g. key_eq key k && is_stale name schema_hash g) one
        | inr other ↦ ground (arith, other)
      ]
    where
      out_of : AnyFlow → Option AnyFlow → AnyFlow
      out_of default none = default
      out_of default (some g) = g

  list_from-IsListing :
      (keys : List Key) (flows : PairDict AnyFlow)
      → IsKeyed flows
      → All (λ key. is_found (find key flows) ≡ true) keys
      → IsListing keys flows (list_from versions none none keys flows)
  unfolding list_from
  list_from-IsListing [] flows keyed there = record {
    listed = [];
    given = refl;
    found = tt;
    tests = λ k flow e. refl;
  }
  list_from-IsListing (key ∷ keys) flows keyed (here, there) =
      let rest = list_from-IsListing keys flows keyed there in
      elim (Option-cases (find key flows)) [
        | inl missing ↦ absurd (ground (arith, here, ap is_found missing))
        | inr (f, at) ↦ record {
          listed = f ∷ rest.listed;
          given =
              ap
                (λ o.
                  add_flow none none (load_flow versions key.0 o)
                    (list_from versions none none keys flows))
                at
              ∙ ap (add_flow none none (gives f)) rest.given;
          found = (ap (λ j. is_found (find j flows)) (keyed key f at) ∙ here, rest.found);
          tests = λ k flow e.
              either _ _ (key_eq key k) (any (λ j. key_eq j k) keys)
                (is_stale name schema_hash flow)
                (head_test key k f flow flows at e (keyed key f at)) (rest.tests k flow e);
        }
      ]

  module _ (sorted : List Key → List Key) (sorting : IsSorting sorted) where
    pub list_flows-IsListing :
        (flows : PairDict AnyFlow)
        → IsKeyed flows
        → IsListing (sorted (keys_of flows)) flows (list_flows versions sorted none none flows)
    unfolding list_flows
    list_flows-IsListing flows keyed = list_from-IsListing (sorted (keys_of flows)) flows keyed (
        all_found _ flows (
          sorting.same_elements (λ key. not (is_found (find key flows))) (keys_of flows)
          ∙ keys-found flows flows (λ k there. there)))
