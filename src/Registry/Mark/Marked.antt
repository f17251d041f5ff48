-- ===== src/Registry/Mark/Marked.antt =====
-- That the replacement of a tool marks the flows that have recorded another hash of it, and no other.
use chain_weaver.Common.{
  String, Bool, true, false, Option, none, some, List, [], ◌∷◌, ◌≡◌, refl, sym, ap, ◌∙◌, inl, inr,
  arith, ◌&&◌, ◌||◌, All, any, Bool-cases, Option-cases, if◌then◌else◌,
}
use chain_weaver.PairDict.{Key, key_eq, PairDict, find, is_found, store}
use chain_weaver.PairDict.Laws.{find-store, key_eq_iff}
use chain_weaver.Registry.{
  AnyFlow, needs_review, Versions, Registry, Outcome, raises, gives, flow_key, save_flow,
  after_save, get_flow, update_found, update_flow_state,
}
use chain_weaver.Registry.Mark.{is_stale, unless_raised, mark_flow, mark_each}

-- A flow that is to be reviewed.
abbrev pub to_review : AnyFlow → AnyFlow
to_review flow = record flow { status = needs_review }

abbrev pub marked_if : Bool → Option AnyFlow → Option AnyFlow
marked_if test none = none
marked_if test (some flow) = some (if test then to_review flow else flow)

abbrev pub gave : {A : Type 0} → Outcome A → Bool
gave (raises e) = false
gave (gives a) = true

marked_if-marked_if :
    (a b : Bool) (o : Option AnyFlow) → marked_if a (marked_if b o) ≡ marked_if (b || a) o
marked_if-marked_if a b none = refl
marked_if-marked_if true true (some flow) = refl
marked_if-marked_if true false (some flow) = refl
marked_if-marked_if false true (some flow) = refl
marked_if-marked_if false false (some flow) = refl

is_found-marked_if : (b : Bool) (o : Option AnyFlow) → is_found (marked_if b o) ≡ is_found o
is_found-marked_if b none = refl
is_found-marked_if b (some flow) = refl

-- Each flow is stored under its name and version.
abbrev pub IsKeyed : PairDict AnyFlow → Type 0
IsKeyed flows = (k : Key) (flow : AnyFlow) → find k flows ≡ some flow → flow_key flow ≡ k

-- No exception, and of the flows those under the keys of the test are to be reviewed, while all
-- others are as before.
pub record IsMarking (test : Key → Bool) (flows : PairDict AnyFlow) (ended : Bool)
    (after : Registry) : Type 0 where
  pub no_exception : ended ≡ true
  pub at : (k : Key) → find k after.flows ≡ marked_if (test k) (find k flows)

marking-IsKeyed :
    (test : Key → Bool) (flows : PairDict AnyFlow) (ended : Bool) (after : Registry)
    → IsMarking test flows ended after
    → IsKeyed flows
    → IsKeyed after.flows
marking-IsKeyed test flows ended after marking keyed k flow found =
    of_marked (test k) (find k flows) (λ g. keyed k g) (sym (marking.at k) ∙ found)
  where
    key_or : Option AnyFlow → Key
    key_or none = k
    key_or (some g) = flow_key g

    of_marked :
        (b : Bool) (o : Option AnyFlow)
        → ((g : AnyFlow) → o ≡ some g → flow_key g ≡ k)
        → marked_if b o ≡ some flow
        → flow_key flow ≡ k
    of_marked b none own e = sym (ap key_or e)
    of_marked true (some g) own e = sym (ap key_or e) ∙ own g refl
    of_marked false (some g) own e = sym (ap key_or e) ∙ own g refl

stored_at :
    (key k : Key) (g : AnyFlow) (flows : PairDict AnyFlow)
    → find key flows ≡ some g
    → flow_key g ≡ key
    → find k (store (flow_key g) (to_review g) flows)
      ≡ marked_if (key_eq key k && true) (find k flows)
stored_at key k g flows found own =
    let test : key_eq (flow_key g) k ≡ key_eq key k = ap (λ j. key_eq j k) own in
    find-store (flow_key g) k (to_review g) flows ∙ elim (Bool-cases (key_eq key k)) [
      | inl same ↦
          let here : find k flows ≡ some g =
            ap (λ j. find j flows) (sym (key_eq_iff key k same)) ∙ found in
          simp (test, same, here) refl
      | inr other ↦ simp (test, other) (unmarked (find k flows))
    ]
  where
    unmarked : (o : Option AnyFlow) → o ≡ marked_if false o
    unmarked none = refl
    unmarked (some f) = refl

unmarked_if :
    (test : Key → Bool) (k : Key) (flows : PairDict AnyFlow)
    → test k ≡ false
    → find k flows ≡ marked_if (test k) (find k flows)
unmarked_if test k flows off = sym (ap (λ b. marked_if b (find k flows)) off ∙ same (find k flows))
  where
    same : (o : Option AnyFlow) → marked_if false o ≡ o
    same none = refl
    same (some f) = refl

abbrev pub is_marked : String → String → AnyFlow → Key → Bool
is_marked name schema_hash flow k = key_eq (flow_key flow) k && is_stale name schema_hash flow

abbrev pub AllFound : PairDict AnyFlow → List AnyFlow → Type 0
AllFound flows listed = All (λ f. is_found (find (flow_key f) flows) ≡ true) listed

module _ (versions : Versions) (name schema_hash : String) where
  found_flow :
      (flow g : AnyFlow) (reg : Registry)
      → is_stale name schema_hash flow ≡ true
      → find (flow_key flow) reg.flows ≡ some g
      → flow_key g ≡ flow_key flow
      → IsMarking
          (is_marked name schema_hash flow)
          reg.flows
          (gave (mark_flow versions name schema_hash flow reg).0)
          (mark_flow versions name schema_hash flow reg).1
  unfolding mark_flow update_flow_state update_found get_flow after_save save_flow
  found_flow flow g reg stale found own =
      let free : (is_found (find (flow_key g) reg.flows) && false) ≡ false = ground arith in
      simp (stale, found, free)
        (record {
          no_exception = refl;
          at = λ k.
              stored_at (flow_key flow) k g reg.flows found own
              ∙ ap (λ b. marked_if (key_eq (flow_key flow) k && b) (find k reg.flows)) (sym stale);
        })

  unmarked_flow :
      (flow : AnyFlow) (reg : Registry)
      → is_stale name schema_hash flow ≡ false
      → IsMarking
          (is_marked name schema_hash flow)
          reg.flows
          (gave (mark_flow versions name schema_hash flow reg).0)
          (mark_flow versions name schema_hash flow reg).1
  unfolding mark_flow
  unmarked_flow flow reg fresh = simp fresh (record {
    no_exception = refl;
    at = λ k. unmarked_if (is_marked name schema_hash flow) k reg.flows (ground (arith, fresh));
  })

  mark_flow-IsMarking :
      (flow : AnyFlow) (reg : Registry)
      → is_found (find (flow_key flow) reg.flows) ≡ true
      → IsKeyed reg.flows
      → IsMarking
          (is_marked name schema_hash flow)
          reg.flows
          (gave (mark_flow versions name schema_hash flow reg).0)
          (mark_flow versions name schema_hash flow reg).1
  mark_flow-IsMarking flow reg there keyed = elim (Bool-cases (is_stale name schema_hash flow)) [
    | inl stale ↦ elim (Option-cases (find (flow_key flow) reg.flows)) [
      | inl missing ↦ absurd (ground (arith, there, ap is_found missing))
      | inr (g, found) ↦ found_flow flow g reg stale found (keyed _ g found)
    ]
    | inr fresh ↦ unmarked_flow flow reg fresh
  ]

  unless_raised-IsMarking :
      (test : Key → Bool) (flows : PairDict AnyFlow) (o : Outcome AnyFlow)
      (rest : Outcome Unit × Registry) (reg : Registry)
      → gave o ≡ true
      → IsMarking test flows (gave rest.0) rest.1
      → IsMarking test flows (gave (unless_raised o rest reg).0) (unless_raised o rest reg).1
  unfolding unless_raised
  unless_raised-IsMarking test flows (raises e) rest reg given marking =
      absurd (ground (arith, given))
  unless_raised-IsMarking test flows (gives f) rest reg given marking = marking

  marking-AllFound :
      (test : Key → Bool) (flows : PairDict AnyFlow) (ended : Bool) (after : Registry)
      (listed : List AnyFlow)
      → IsMarking test flows ended after
      → AllFound flows listed
      → AllFound after.flows listed
  marking-AllFound test flows ended after [] marking found = tt
  marking-AllFound test flows ended after (f ∷ listed) marking (this, found) = (
    ap is_found (marking.at (flow_key f))
        ∙ is_found-marked_if (test (flow_key f)) (find (flow_key f) flows)
        ∙ this,
    marking-AllFound test flows ended after listed marking found,
  )

  pub mark_each-IsMarking :
      (listed : List AnyFlow) (reg : Registry)
      → AllFound reg.flows listed
      → IsKeyed reg.flows
      → IsMarking
          (λ k. any (λ f. is_marked name schema_hash f k) listed)
          reg.flows
          (gave (mark_each versions name schema_hash listed reg).0)
          (mark_each versions name schema_hash listed reg).1
  unfolding mark_each
  mark_each-IsMarking [] reg found keyed = record {
    no_exception = refl;
    at = λ k. unmarked_if (λ j. false) k reg.flows refl;
  }
  mark_each-IsMarking (f ∷ listed) reg (this, found) keyed =
      let out = mark_flow versions name schema_hash f reg in
      let first = mark_flow-IsMarking f reg this keyed in
      let rest =
        mark_each-IsMarking listed out.1
          (marking-AllFound _ reg.flows (gave out.0) out.1 listed first found)
          (marking-IsKeyed _ reg.flows (gave out.0) out.1 first keyed) in
      unless_raised-IsMarking _ reg.flows out.0 (mark_each versions name schema_hash listed out.1)
        out.1 first.no_exception
        (record {
          no_exception = rest.no_exception;
          at = λ k.
              rest.at k
              ∙ ap (marked_if (any (λ g. is_marked name schema_hash g k) listed)) (first.at k)
              ∙ marked_if-marked_if (any (λ g. is_marked name schema_hash g k) listed)
                  (is_marked name schema_hash f k) (find k reg.flows);
        })
