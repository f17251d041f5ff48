-- ===== src/Registry/Mark/Replaced.antt =====
-- What the registration of a tool does to the tools and the flows.
use chain_weaver.Common.{
  String, Bool, true, false, Option, none, some, List, ◌≡◌, refl, sym, ap, subst, ◌∙◌, inl, inr,
  arith, ◌&&◌, any, Bool-cases, if◌then◌else◌,
}
use chain_weaver.Dict.{lookup, insert}
use chain_weaver.PairDict.{Key, key_eq, PairDict, find}
use chain_weaver.Registry.{
  empty_registry, Call, after_calls, AnyFlow, Versions, Registry, Outcome, raises, gives,
}
use chain_weaver.Registry.Drift.{Hashes}
use chain_weaver.Registry.Mark.{
  keys_of, differs, is_stale, after_marking, mark_listed, handle_schema_drift, if_changed,
  register_tool,
}
use chain_weaver.Registry.Mark.Keyed.{called-IsKeyed}
use chain_weaver.Registry.Mark.Marked.{
  to_review, marked_if, gave, IsKeyed, is_marked, mark_each-IsMarking,
}
use chain_weaver.Registry.Mark.Listed.{key-listed, IsSorting, IsListing, list_flows-IsListing}

module _ (versions : Versions) (name schema_hash : String) where
  module _ (sorted : List Key → List Key) (sorting : IsSorting sorted) where
    -- Every flow that has recorded another hash is to be reviewed, and no other.
    abbrev pub reviewed_if : Bool → Option AnyFlow → Option AnyFlow
    reviewed_if test none = none
    reviewed_if test (some flow) =
        some (if test && is_stale name schema_hash flow then to_review flow else flow)

    -- The loop ends without an exception, and of the flows those that have recorded another hash are
    -- to be reviewed, if the test holds, while all others are as before.
    pub record IsReview (test : Bool) (flows : PairDict AnyFlow) (out : Outcome Unit × Registry)
        : Type 0 where
      pub no_exception : out.0 ≡ gives tt
      pub at : (k : Key) → find k out.1.flows ≡ reviewed_if test (find k flows)

    gives_unit : (o : Outcome Unit) → gave o ≡ true → o ≡ gives tt
    gives_unit (raises e) given = absurd (ground (arith, given))
    gives_unit (gives tt) given = refl

    at_each :
        (keys : List Key) (flows : PairDict AnyFlow) (out : Outcome (List AnyFlow)) (k : Key)
        (listing : IsListing versions name schema_hash keys flows out) (o : Option AnyFlow)
        → any (λ key. key_eq key k) keys ≡ any (λ key. key_eq key k) (keys_of flows)
        → find k flows ≡ o
        → marked_if (any (λ f. is_marked name schema_hash f k) listing.listed) o
          ≡ reviewed_if true o
    at_each keys flows out k listing none same found = refl
    at_each keys flows out k listing (some flow) same found =
        ap (λ b. marked_if b (some flow))
          (listing.tests k flow found
            ∙ ap (λ b. b && is_stale name schema_hash flow) (same ∙ key-listed k flow flows found))

    handle_schema_drift-IsReview :
        (reg : Registry)
        → IsKeyed reg.flows
        → IsReview true reg.flows (handle_schema_drift versions sorted name schema_hash reg)
    unfolding handle_schema_drift mark_listed
    handle_schema_drift-IsReview reg keyed =
        let listing =
          list_flows-IsListing versions name schema_hash sorted sorting reg.flows keyed in
        let marking =
          mark_each-IsMarking versions name schema_hash listing.listed reg listing.found keyed in
        subst (λ o. IsReview true reg.flows (mark_listed versions sorted name schema_hash o reg))
          (sym listing.given)
          (record {
            no_exception = gives_unit _ marking.no_exception;
            at = λ k.
                marking.at k
                ∙ at_each _ reg.flows _ k listing (find k reg.flows)
                    (sorting.same_elements (λ key. key_eq key k) (keys_of reg.flows)) refl;
          })

    if_changed-IsReview :
        (old : Option String) (reg : Registry)
        → IsKeyed reg.flows
        → IsReview
            (differs schema_hash old)
            reg.flows
            (if_changed versions sorted name schema_hash old reg)
    unfolding if_changed
    if_changed-IsReview old reg keyed = elim (Bool-cases (differs schema_hash old)) [
      | inl changed ↦ simp changed (handle_schema_drift-IsReview reg keyed)
      | inr same ↦
          simp same (record { no_exception = refl; at = λ k. unreviewed (find k reg.flows) })
    ]
      where
        unreviewed : (o : Option AnyFlow) → o ≡ reviewed_if false o
        unreviewed none = refl
        unreviewed (some flow) = refl

    -- The tool is registered under its name with its hash, without an exception, and of the flows, if
    -- the tool was there with another hash, exactly those that have recorded another hash of it than
    -- the new one are to be reviewed; everything else on the flows is as before.
    pub record IsReplaced (tools : Hashes) (flows : PairDict AnyFlow)
        (out : Outcome Unit × (Hashes × Registry)) : Type 0 where
      pub no_exception : out.0 ≡ gives tt
      pub registered : out.1.0 ≡ insert name schema_hash tools
      pub at :
          (k : Key)
          → find k out.1.1.flows
            ≡ reviewed_if (differs schema_hash (lookup name tools)) (find k flows)

    after_marking-IsReplaced :
        (tools : Hashes) (flows : PairDict AnyFlow) (out : Outcome Unit × Registry)
        → IsReview (differs schema_hash (lookup name tools)) flows out
        → IsReplaced tools flows (after_marking name schema_hash tools out)
    unfolding after_marking
    after_marking-IsReplaced tools flows (raises e, reg) review =
        absurd (ground (arith, ap gave review.no_exception))
    after_marking-IsReplaced tools flows (gives u, reg) review = record {
      no_exception = refl;
      registered = refl;
      at = review.at;
    }

    keyed-IsReplaced :
        (tools : Hashes) (reg : Registry)
        → IsKeyed reg.flows
        → IsReplaced tools reg.flows (register_tool versions sorted name schema_hash tools reg)
    unfolding register_tool
    keyed-IsReplaced tools reg keyed =
        after_marking-IsReplaced tools reg.flows _
          (if_changed-IsReview (lookup name tools) reg keyed)

    -- Registering a tool, after any calls of the registry, replaces the tool and never raises: if the
    -- tool was there with another hash, then each flow, of whatever version, that has recorded another
    -- hash of it than the new one is to be reviewed, and no other flow is changed.
    pub register_tool-IsReplaced :
        (tools : Hashes) (calls : List Call)
        → IsReplaced tools (after_calls versions calls empty_registry).flows (
            register_tool versions sorted name schema_hash tools
              (after_calls versions calls empty_registry))
    register_tool-IsReplaced tools calls =
        keyed-IsReplaced tools (after_calls versions calls empty_registry)
          (called-IsKeyed versions calls)
