-- ===== src/Mcp/RateLimit/Sweep.antt =====
-- Sweeping the entries of a rate limiter, against not sweeping them.
use chain_weaver.Common.{
  ℕ, suc, ◌-◌, ◌≤◌, String, Bool, true, Option, none, some, List, [], ◌∷◌, ◌≡◌, refl, sym, ap,
  subst, ◌∙◌, inl, inr, arith, ◌&&◌, not, leb, length, Bool-cases,
}
use chain_weaver.PairDict.{Key, key_eq, find, is_found, store}
use chain_weaver.PairDict.Laws.{find-store, kept, find-drop_where}
use chain_weaver.Mcp.RateLimit.{
  RateLimiter, Hits, key_of, is_expired, evict_expired, make_room, current, admit, acquire_key,
  acquire, Request, serve,
}
use chain_weaver.Mcp.RateLimit.Tracked.{IsTracked, acquire-IsTracked}

-- Each call is at the time of the one before it, or later.
abbrev pub InOrder : ℕ → List Request → Type 0
InOrder now [] = Unit
InOrder now (q ∷ requests) = (now ≤ q.now) × InOrder q.now requests

module _ (limiter : RateLimiter) where
  -- What is stored of a window that has not run out.
  abbrev live : ℕ → Option (ℕ × ℕ) → Option (ℕ × ℕ)
  live now hit = kept (is_expired limiter now) hit

  live-live :
      (now later : ℕ) (hit : Option (ℕ × ℕ))
      → now ≤ later
      → live later (live now hit) ≡ live later hit
  live-live now later none le = refl
  live-live now later (some (start, count)) le =
      elim (Bool-cases (leb limiter.window_seconds (now - start))) [
        | inl out ↦
            let still : leb limiter.window_seconds (later - start) ≡ true =
              ground (arith, out, le) in
            simp (out, still) refl
        | inr stays ↦ simp stays refl
      ]

  current-live :
      (now : ℕ) (hit : Option (ℕ × ℕ))
      → current limiter now (live now hit) ≡ current limiter now hit
  unfolding current
  current-live now none = refl
  current-live now (some (start, count)) =
      elim (Bool-cases (leb limiter.window_seconds (now - start))) [
        | inl out ↦ simp out refl
        | inr stays ↦ simp stays refl
      ]

  live-make_room :
      (key k : Key) (now : ℕ) (hits : Hits)
      → IsTracked limiter hits
      → live now (find k (make_room limiter key now hits)) ≡ live now (find k hits)
  unfolding make_room evict_expired
  live-make_room key k now hits fine =
      elim (Bool-cases (not (is_found (find key hits)) && leb limiter.max_tracked (length hits))) [
        | inl full ↦
            simp (full, find-drop_where (is_expired limiter now) k hits fine.unique)
              (live-live now now (find k hits) (omega arith))
        | inr room ↦ simp room refl
      ]

-- The same limiter with another bound on what it tracks.
abbrev pub tracking : RateLimiter → ℕ → RateLimiter
tracking limiter max_tracked = record limiter { max_tracked = max_tracked }

module _ (limiter : RateLimiter) (max_tracked : ℕ) where
  -- The same windows that have not run out.
  abbrev Alike : ℕ → Hits → Hits → Type 0
  Alike now hits hits' =
      (k : Key) → live limiter now (find k hits) ≡ live limiter now (find k hits')

  Alike-later :
      (now later : ℕ) (hits hits' : Hits)
      → now ≤ later
      → Alike now hits hits'
      → Alike later hits hits'
  Alike-later now later hits hits' le alike k =
      sym (live-live limiter now later (find k hits) le)
      ∙ ap (live limiter later) (alike k)
      ∙ live-live limiter now later (find k hits') le

  Alike-store :
      (key : Key) (hit : ℕ × ℕ) (now : ℕ) (hits hits' : Hits)
      → Alike now hits hits'
      → Alike now (store key hit hits) (store key hit hits')
  Alike-store key hit now hits hits' alike k = elim (Bool-cases (key_eq key k)) [
    | inl same ↦ simp (find-store key k hit hits, find-store key k hit hits', same) refl
    | inr other ↦ simp (find-store key k hit hits, find-store key k hit hits', other) (alike k)
  ]

  -- Two answers that are the same, with the same windows after them.
  abbrev SameAnswer : ℕ → Bool × Hits → Bool × Hits → Type 0
  SameAnswer now out out' = (out.0 ≡ out'.0) × Alike now out.1 out'.1

  module _ (now : ℕ) (hits hits' : Hits) (fine : IsTracked limiter hits)
      (fine' : IsTracked (tracking limiter max_tracked) hits') (alike : Alike now hits hits') where
    Alike-make_room :
        (key : Key)
        → Alike now
            (make_room limiter key now hits)
            (make_room (tracking limiter max_tracked) key now hits')
    Alike-make_room key k =
        live-make_room limiter key k now hits fine
        ∙ alike k
        ∙ sym (live-make_room (tracking limiter max_tracked) key k now hits' fine')

    admit-SameAnswer :
        (key : Key) (hit : ℕ × ℕ)
        → SameAnswer now
            (admit limiter key now hits hit)
            (admit (tracking limiter max_tracked) key now hits' hit)
    unfolding admit
    admit-SameAnswer key (start, count) = elim (Bool-cases (leb limiter.max_calls count)) [
      | inl full ↦ simp full (refl, Alike-store key (start, count) now hits hits' alike)
      | inr room ↦
          simp room (refl, Alike-store key (start, suc count) now _ _ (Alike-make_room key))
    ]

    same_current :
        (key : Key)
        → current limiter now (find key hits)
          ≡ current (tracking limiter max_tracked) now (find key hits')
    unfolding current
    same_current key =
        sym (current-live limiter now (find key hits))
        ∙ ap (current limiter now) (alike key)
        ∙ current-live limiter now (find key hits')

    acquire-SameAnswer :
        (caller : Option String) (flow_name : String)
        → SameAnswer now
            (acquire limiter caller flow_name now hits)
            (acquire (tracking limiter max_tracked) caller flow_name now hits')
    unfolding acquire acquire_key
    acquire-SameAnswer caller flow_name =
        let key = key_of limiter caller flow_name in
        subst
          (λ hit.
            SameAnswer now (admit limiter key now hits (current limiter now (find key hits)))
              (admit (tracking limiter max_tracked) key now hits' hit))
          (same_current key) (admit-SameAnswer key (current limiter now (find key hits)))

  serve-SameAnswer :
      (now : ℕ) (requests : List Request) (hits hits' : Hits)
      → IsTracked limiter hits
      → IsTracked (tracking limiter max_tracked) hits'
      → Alike now hits hits'
      → InOrder now requests
      → (serve limiter requests hits).0 ≡ (serve (tracking limiter max_tracked) requests hits').0
  unfolding serve
  serve-SameAnswer now [] hits hits' fine fine' alike order = refl
  serve-SameAnswer now (q ∷ requests) hits hits' fine fine' alike (le, order) =
      let (same, next) =
        acquire-SameAnswer q.now hits hits' fine fine' (Alike-later now q.now hits hits' le alike)
          q.caller q.flow_name in
      let rest =
        serve-SameAnswer q.now requests _ _
          (acquire-IsTracked limiter q.caller q.flow_name q.now hits fine)
          (acquire-IsTracked (tracking limiter max_tracked) q.caller q.flow_name q.now hits' fine')
          next order in
      λ i. same i ∷ rest i

  -- What a limiter answers does not depend on how many keys it tracks before it sweeps: to any calls
  -- at times that do not go back, from the start on, the limiter gives the answers that it gives with
  -- any other `max_tracked`, as with one so large that nothing is ever swept.
  pub serve-tracking :
      (now : ℕ) (requests : List Request)
      → InOrder now requests
      → (serve limiter requests []).0 ≡ (serve (tracking limiter max_tracked) requests []).0
  unfolding find
  serve-tracking now requests order =
      serve-SameAnswer now requests [] [] (record { unique = tt; counted = λ k. tt })
        (record { unique = tt; counted = λ k. tt }) (λ k. refl) order
