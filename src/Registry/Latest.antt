-- ===== src/Registry/Latest.antt =====
-- The latest version of each name, as the calls of a registry leave it.
pub mod Calls
use chain_weaver.Common.{
  String, Bool, true, false, Option, none, some, ◌≡◌, refl, sym, ap, subst, ◌∙◌, ◌⊎◌, inl, inr,
  arith, ◌==◌, ◌&&◌, eq_iff, eq_refl, Bool-cases, Option-cases, if◌then◌else◌,
}
use chain_weaver.Dict.{Dict, lookup, insert}
use chain_weaver.Dict.Laws.{lookup-insert}
use chain_weaver.Registry.{AnyFlow, Versions, is_newer, touch_latest}

-- The versions are ordered: of two, one is at least the other, and that goes on.
pub record IsOrdered (versions : Versions) : Type 0 where
  pub total :
      (v w : String)
      → versions.is_version v ≡ true
      → versions.is_version w ≡ true
      → (versions.at_least v w ≡ true) ⊎ (versions.at_least w v ≡ true)
  pub transitive :
      (u v w : String)
      → versions.at_least u v ≡ true
      → versions.at_least v w ≡ true
      → versions.at_least u w ≡ true

module _ (versions : Versions) where
  -- Of one name, the flows stored under its versions and its latest version: a flow is stored under
  -- its own name and version; the latest version is there, and it is at least every other.
  pub record IsLatest (name : String) (latest : Option String) (at : String → Option AnyFlow)
      : Type 0 where
    pub named :
        (v : String) (flow : AnyFlow)
        → at v ≡ some flow
        → (flow.name ≡ name) × (flow.version ≡ v) × (versions.is_version v ≡ true)
    pub newest :
        (v : String) (flow : AnyFlow)
        → at v ≡ some flow
        → (l : String) × (latest ≡ some l) × (versions.at_least l v ≡ true)
    pub stored : (l : String) → latest ≡ some l → (flow : AnyFlow) × (at l ≡ some flow)

  -- The latest version after one more is saved.
  abbrev pub touched : String → Option String → Option String
  touched version latest = if is_newer versions version latest then some version else latest

  -- The flows after one more is saved.
  abbrev pub saved : AnyFlow → (String → Option AnyFlow) → String → Option AnyFlow
  saved flow at v = if flow.version == v then some flow else at v

  module _ (ordered : IsOrdered versions) (flow : AnyFlow)
      (valid : versions.is_version flow.version ≡ true) where
    at_least_refl : (v : String) → versions.is_version v ≡ true → versions.at_least v v ≡ true
    at_least_refl v is = elim (ordered.total v v is is) [ inl le ↦ le | inr le ↦ le ]

    -- What is latest after the save is at least what is saved, and at least what was latest before.
    touched-newest :
        (latest : Option String) (at : String → Option AnyFlow)
        → IsLatest flow.name latest at
        → (l : String) × (touched flow.version latest ≡ some l)
          × (versions.at_least l flow.version ≡ true)
          × ((old : String) → latest ≡ some old → versions.at_least l old ≡ true)
    touched-newest none at fine =
        (flow.version, refl, at_least_refl flow.version valid, λ old e. ground (arith, e))
    touched-newest (some current) at fine =
        elim (Bool-cases (versions.at_least flow.version current)) [
          | inl newer ↦ (
            flow.version,
            simp newer refl,
            at_least_refl flow.version valid,
            λ old e.
                subst (λ o. versions.at_least flow.version o ≡ true) (ap (λ o. out_of o) e) newer,
          )
          | inr older ↦
              let (stored_flow, e) = fine.stored current refl in
              let is = (fine.named current stored_flow e).2 in
              let le : versions.at_least current flow.version ≡ true =
                elim (ordered.total current flow.version is valid) [
                  | inl le ↦ le
                  | inr ge ↦ ground (arith, ge, older)
                ] in
              (
                current,
                simp older refl,
                le,
                λ old same.
                    subst (λ o. versions.at_least current o ≡ true) (ap (λ o. out_of o) same)
                      (at_least_refl current is),
              )
        ]
      where
        out_of : Option String → String
        out_of none = ""
        out_of (some v) = v

    pub saved-IsLatest :
        (latest : Option String) (at : String → Option AnyFlow)
        → IsLatest flow.name latest at
        → IsLatest flow.name (touched flow.version latest) (saved flow at)
    saved-IsLatest latest at fine = record {
      named = λ v f e. elim (Bool-cases (flow.version == v)) [
        | inl same ↦
            let is : flow ≡ f = the_flow v f same e in
            let version : flow.version ≡ v = (eq_iff flow.version v).0 same in
            (
              sym (ap (λ g. g.name) is),
              sym (ap (λ g. g.version) is) ∙ version,
              subst (λ w. versions.is_version w ≡ true) version valid,
            )
        | inr other ↦ fine.named v f (simp other at e)
      ];
      newest = λ v f e.
          let (l, is, above, over_old) = touched-newest latest at fine in
          elim (Bool-cases (flow.version == v)) [
            | inl same ↦ (
              l,
              is,
              subst (λ w. versions.at_least l w ≡ true) ((eq_iff flow.version v).0 same) above,
            )
            | inr other ↦
                let (old, was, le) = fine.newest v f (simp other at e) in
                (l, is, ordered.transitive l old v (over_old old was) le)
          ];
      stored = λ l e. elim (Bool-cases (flow.version == l)) [
        | inl same ↦ (flow, simp same refl)
        | inr other ↦ elim (Bool-cases (is_newer versions flow.version latest)) [
          | inl newer ↦ ground (arith, other, eq_iff flow.version l, simp newer at e)
          | inr older ↦ let (f, there) = fine.stored l (simp older at e) in (f, simp other there)
        ]
      ];
    }
      where
        the_flow :
            (v : String) (f : AnyFlow)
            → (flow.version == v) ≡ true
            → saved flow at v ≡ some f
            → flow ≡ f
        the_flow v f same e = ap (λ o. or_flow o) (simp same at e)
          where
            or_flow : Option AnyFlow → AnyFlow
            or_flow none = flow
            or_flow (some g) = g
