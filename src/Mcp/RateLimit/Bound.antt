-- ===== src/Mcp/RateLimit/Bound.antt =====
-- How many calls a rate limiter permits.
use chain_weaver.Common.{
  ℕ, suc, ◌+◌, ◌-◌, ◌*◌, ◌≤◌, ◌<◌, String, Bool, true, false, Option, none, some, List, [], ◌∷◌,
  ◌≡◌, subst, inl, inr, arith, ◌&&◌, not, leb, length, All, Bool-cases, if◌then◌else◌,
}
use chain_weaver.PairDict.{Key, key_eq, find, is_found, store}
use chain_weaver.PairDict.Laws.{key_eq_iff, find-store, kept, find-drop_where}
use chain_weaver.Mcp.RateLimit.{
  RateLimiter, Hits, key_of, is_expired, evict_expired, make_room, current, admit, acquire_key,
  acquire, Request, serve, one_if, permitted,
}
use chain_weaver.Mcp.RateLimit.Tracked.{IsCounted, IsTracked, acquire-IsTracked, serve-IsTracked}

module _ (limiter : RateLimiter) where
  -- What is left to an entry within the window's length from `t` on.
  abbrev budget : ℕ → Option (ℕ × ℕ) → ℕ
  budget t none = limiter.max_calls
  budget t (some (start, count)) =
      if leb t start then limiter.max_calls - count else 2 * limiter.max_calls - count

  module _ (t now : ℕ) (from : t ≤ now) (until : now < t + limiter.window_seconds) where
    budget-kept :
        (hit : Option (ℕ × ℕ))
        → IsCounted limiter hit
        → budget t (kept (is_expired limiter now) hit) ≤ budget t hit
    budget-kept none fine = omega arith
    budget-kept (some (start, count)) fine = ground (arith, fine, from, until)

    budget-make_room :
        (key k : Key) (hits : Hits)
        → IsTracked limiter hits
        → budget t (find k (make_room limiter key now hits)) ≤ budget t (find k hits)
    unfolding make_room evict_expired
    budget-make_room key k hits fine =
        elim (Bool-cases
          (not (is_found (find key hits)) && leb limiter.max_tracked (length hits))) [
            | inl full ↦
                simp (full, find-drop_where (is_expired limiter now) k hits fine.unique)
                  (budget-kept (find k hits) (fine.counted k))
            | inr room ↦ simp room (omega arith)
          ]

    -- The answer to a call with the window that it meets, and what is left after it.
    abbrev Charged : Option (ℕ × ℕ) → ℕ × ℕ → Type 0
    Charged hit (start, count) =
        ((leb limiter.max_calls count ≡ true) → budget t (some (start, count)) ≤ budget t hit)
        × ((leb limiter.max_calls count ≡ false)
            → suc (budget t (some (start, suc count))) ≤ budget t hit)

    current-Charged :
        (hit : Option (ℕ × ℕ)) → IsCounted limiter hit → Charged hit (current limiter now hit)
    unfolding current
    current-Charged none fine =
        (λ full. ground (arith, full, from), λ room. ground (arith, room, from))
    current-Charged (some (start, count)) fine =
        elim (Bool-cases (leb limiter.window_seconds (now - start))) [
          | inl out ↦ simp out (
            λ full. ground (arith, full, from, until, out, fine),
            λ room. ground (arith, room, from, until, out, fine),
          )
          | inr stays ↦
              simp stays (λ full. ground (arith, full, fine), λ room. ground (arith, room, fine))
        ]

    -- A call takes one from what is left to its key, if it is permitted, and nothing from the others.
    abbrev Spends : Key → Key → Hits → Bool × Hits → Type 0
    Spends key k hits (answer, hits') =
        one_if limiter (key_eq key k && answer) + budget t (find k hits') ≤ budget t (find k hits)

    denied-Spends :
        (key k : Key) (hits : Hits) (hit : ℕ × ℕ)
        → budget t (some hit) ≤ budget t (find key hits)
        → Spends key k hits (false, store key hit hits)
    denied-Spends key k hits hit le = elim (Bool-cases (key_eq key k)) [
      | inl same ↦
          simp (find-store key k hit hits, same)
            (omega (
              arith,
              subst (λ j. budget t (some hit) ≤ budget t (find j hits)) (key_eq_iff key k same) le,
            ))
      | inr other ↦ simp (find-store key k hit hits, other) (omega arith)
    ]

    permitted-Spends :
        (key k : Key) (hits : Hits) (hit : ℕ × ℕ)
        → IsTracked limiter hits
        → suc (budget t (some hit)) ≤ budget t (find key hits)
        → Spends key k hits (true, store key hit (make_room limiter key now hits))
    permitted-Spends key k hits hit fine le = elim (Bool-cases (key_eq key k)) [
      | inl same ↦
          simp (find-store key k hit (make_room limiter key now hits), same)
            (omega (
              arith,
              subst (λ j. suc (budget t (some hit)) ≤ budget t (find j hits))
                  (key_eq_iff key k same) le,
            ))
      | inr other ↦
          simp (find-store key k hit (make_room limiter key now hits), other)
            (omega (arith, budget-make_room key k hits fine))
    ]

    admit-Spends :
        (key k : Key) (hits : Hits) (hit : ℕ × ℕ)
        → IsTracked limiter hits
        → Charged (find key hits) hit
        → Spends key k hits (admit limiter key now hits hit)
    unfolding admit
    admit-Spends key k hits (start, count) fine (full, room) =
        elim (Bool-cases (leb limiter.max_calls count)) [
          | inl e ↦ simp e (denied-Spends key k hits (start, count) (full e))
          | inr e ↦ simp e (permitted-Spends key k hits (start, suc count) fine (room e))
        ]

    acquire-Spends :
        (caller : Option String) (flow_name : String) (k : Key) (hits : Hits)
        → IsTracked limiter hits
        → Spends
            (key_of limiter caller flow_name)
            k
            hits
            (acquire limiter caller flow_name now hits)
    unfolding acquire acquire_key
    acquire-Spends caller flow_name k hits fine =
        admit-Spends _ k hits _ fine (current-Charged _ (fine.counted _))

  -- The call is in the span of one window's length from `t` on.
  abbrev pub InSpan : ℕ → Request → Type 0
  InSpan t q = (t ≤ q.now) × (q.now < t + limiter.window_seconds)

  permitted-budget :
      (t : ℕ) (key : Key) (requests : List Request) (hits : Hits)
      → IsTracked limiter hits
      → All (InSpan t) requests
      → permitted limiter key requests hits ≤ budget t (find key hits)
  unfolding permitted
  permitted-budget t key [] hits fine span = omega arith
  permitted-budget t key (q ∷ requests) hits fine ((from, until), span) = omega (
    arith,
    acquire-Spends t q.now from until q.caller q.flow_name key hits fine,
    permitted-budget t key requests _
        (acquire-IsTracked limiter q.caller q.flow_name q.now hits fine) span,
  )

  budget_le : (t : ℕ) (hit : Option (ℕ × ℕ)) → budget t hit ≤ 2 * limiter.max_calls
  budget_le t none = omega arith
  budget_le t (some (start, count)) = ground arith

  -- In a span of one window's length, whatever calls of all callers there are in whatever order, and
  -- whatever is swept to make room, a key is permitted at most `max_calls` calls if the limiter is
  -- new, and at most twice as many after any calls before.
  pub permitted-le :
      (t : ℕ) (key : Key) (earlier requests : List Request)
      → All (InSpan t) requests
      → (permitted limiter key requests [] ≤ limiter.max_calls)
        × (permitted limiter key requests (serve limiter earlier []).1 ≤ 2 * limiter.max_calls)
  unfolding find
  permitted-le t key earlier requests span = (
    permitted-budget t key requests [] nothing span,
    omega (
      arith,
      permitted-budget t key requests _ (serve-IsTracked limiter earlier [] nothing) span,
      budget_le t (find key (serve limiter earlier []).1),
    ),
  )
    where
      nothing : IsTracked limiter []
      nothing = record { unique = tt; counted = λ k. tt }
