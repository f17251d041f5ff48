-- ===== src/Mcp/RateLimit/Tracked.antt =====
-- What a rate limiter keeps of the calls.
use chain_weaver.Common.{
  ℕ, suc, ◌-◌, ◌≤◌, String, Option, none, some, List, [], ◌∷◌, sym, subst, inl, inr, arith, ◌&&◌,
  not, leb, length, Bool-cases,
}
use chain_weaver.PairDict.{Key, key_eq, find, is_found, store}
use chain_weaver.PairDict.Laws.{
  find-store, Unique, store-Unique, kept, find-drop_where, drop_where-Unique,
}
use chain_weaver.Mcp.RateLimit.{
  RateLimiter, Hits, is_expired, evict_expired, make_room, current, admit, acquire_key, acquire,
  Request, serve,
}

module _ (limiter : RateLimiter) where
  -- The count is at most what a window permits.
  abbrev pub IsCounted : Option (ℕ × ℕ) → Type 0
  IsCounted none = Unit
  IsCounted (some (start, count)) = count ≤ limiter.max_calls

  -- No key twice, and no count above what a window permits.
  pub record IsTracked (hits : Hits) : Type 0 where
    pub unique : Unique hits
    pub counted : (k : Key) → IsCounted (find k hits)

  kept-IsCounted :
      (now : ℕ) (hit : Option (ℕ × ℕ))
      → IsCounted hit
      → IsCounted (kept (is_expired limiter now) hit)
  kept-IsCounted now none fine = tt
  kept-IsCounted now (some (start, count)) fine =
      elim (Bool-cases (leb limiter.window_seconds (now - start))) [
        | inl out ↦ simp out tt
        | inr stays ↦ simp stays fine
      ]

  pub make_room-IsTracked :
      (key : Key) (now : ℕ) (hits : Hits)
      → IsTracked hits
      → IsTracked (make_room limiter key now hits)
  unfolding make_room evict_expired
  make_room-IsTracked key now hits fine =
      elim (Bool-cases (not (is_found (find key hits)) && leb limiter.max_tracked (length hits))) [
        | inl full ↦ simp full (record {
          unique = drop_where-Unique (is_expired limiter now) hits fine.unique;
          counted = λ k.
              subst IsCounted (sym (find-drop_where (is_expired limiter now) k hits fine.unique))
                (kept-IsCounted now (find k hits) (fine.counted k));
        })
        | inr room ↦ simp room fine
      ]

  store-IsTracked :
      (key : Key) (start count : ℕ) (hits : Hits)
      → IsTracked hits
      → count ≤ limiter.max_calls
      → IsTracked (store key (start, count) hits)
  store-IsTracked key start count hits fine le = record {
    unique = store-Unique key (start, count) hits fine.unique;
    counted = λ k.
        subst IsCounted (sym (find-store key k (start, count) hits))
          (elim (Bool-cases (key_eq key k)) [
            | inl same ↦ simp same le
            | inr other ↦ simp other (fine.counted k)
          ]);
  }

  pub current-IsCounted :
      (now : ℕ) (hit : Option (ℕ × ℕ))
      → IsCounted hit
      → (current limiter now hit).1 ≤ limiter.max_calls
  unfolding current
  current-IsCounted now none fine = omega arith
  current-IsCounted now (some (start, count)) fine =
      elim (Bool-cases (leb limiter.window_seconds (now - start))) [
        | inl out ↦ simp out (omega arith)
        | inr stays ↦ simp stays fine
      ]

  admit-IsTracked :
      (key : Key) (now : ℕ) (hits : Hits) (hit : ℕ × ℕ)
      → IsTracked hits
      → hit.1 ≤ limiter.max_calls
      → IsTracked (admit limiter key now hits hit).1
  unfolding admit
  admit-IsTracked key now hits (start, count) fine le =
      elim (Bool-cases (leb limiter.max_calls count)) [
        | inl full ↦ simp full (store-IsTracked key start count hits fine le)
        | inr room ↦ simp room (
            store-IsTracked key start (suc count) _ (make_room-IsTracked key now hits fine)
              (ground (arith, room)))
      ]

  pub acquire-IsTracked :
      (caller : Option String) (flow_name : String) (now : ℕ) (hits : Hits)
      → IsTracked hits
      → IsTracked (acquire limiter caller flow_name now hits).1
  unfolding acquire acquire_key
  acquire-IsTracked caller flow_name now hits fine =
      admit-IsTracked _ now hits _ fine (current-IsCounted now _ (fine.counted _))

  pub serve-IsTracked :
      (requests : List Request) (hits : Hits)
      → IsTracked hits
      → IsTracked (serve limiter requests hits).1
  unfolding serve
  serve-IsTracked [] hits fine = fine
  serve-IsTracked (q ∷ requests) hits fine =
      serve-IsTracked requests _ (acquire-IsTracked q.caller q.flow_name q.now hits fine)
