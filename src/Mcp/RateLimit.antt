-- ===== src/Mcp/RateLimit.antt =====
-- FixedWindowRateLimiter of chainweaver/mcp/security.py. Time is a number of ticks.
pub mod Tracked
pub mod Bound
pub mod Sweep
use chain_weaver.Common.{
  ℕ, suc, ◌+◌, ◌-◌, String, Bool, true, false, Option, none, some, List, [], ◌∷◌, ◌&&◌, not, leb,
  length, if◌then◌else◌,
}
use chain_weaver.PairDict.{Key, key_eq, PairDict, find, is_found, store, drop_where}

pub record RateLimiter : Type 0 where
  pub max_calls : ℕ
  pub window_seconds : ℕ
  pub per_flow : Bool
  pub max_tracked : ℕ

-- `self._hits`: the start of the window and the calls in it, for each key.
abbrev pub Hits : Type 0
Hits = PairDict (ℕ × ℕ)

-- The constructor's checks; `none` is ValueError.
unfoldable pub new_limiter : (max_calls window_seconds : ℕ) → Bool → ℕ → Option RateLimiter
new_limiter max_calls window_seconds per_flow max_tracked =
    if leb 1 max_calls && (leb 1 window_seconds && leb 1 max_tracked)
    then some (record {
      max_calls = max_calls;
      window_seconds = window_seconds;
      per_flow = per_flow;
      max_tracked = max_tracked;
    })
    else none

abbrev pub caller_key : Option String → String
caller_key none = "anonymous"
caller_key (some id) = id

module _ (limiter : RateLimiter) where
  abbrev pub key_of : Option String → String → Key
  key_of caller flow_name = (caller_key caller, if limiter.per_flow then flow_name else "")

  -- `now - start >= self.window_seconds`. A clock that ran backwards leaves the window open.
  abbrev pub is_expired : ℕ → ℕ × ℕ → Bool
  is_expired now (start, count) = leb limiter.window_seconds (now - start)

  -- `_evict_expired`
  unfoldable pub evict_expired : ℕ → Hits → Hits
  evict_expired now hits = drop_where (is_expired now) hits

  -- The sweep before a new key is added.
  unfoldable pub make_room : Key → ℕ → Hits → Hits
  unfolding evict_expired
  make_room key now hits =
      if not (is_found (find key hits)) && leb limiter.max_tracked (length hits)
      then evict_expired now hits
      else hits

  -- The window and the count that a call meets.
  unfoldable pub current : ℕ → Option (ℕ × ℕ) → ℕ × ℕ
  current now none = (now, 0)
  current now (some hit) = if is_expired now hit then (now, 0) else hit

  unfoldable pub admit : Key → ℕ → Hits → ℕ × ℕ → Bool × Hits
  unfolding make_room
  admit key now hits (start, count) =
      if leb limiter.max_calls count
      then (false, store key (start, count) hits)
      else (true, store key (start, suc count) (make_room key now hits))

  unfoldable pub acquire_key : Key → ℕ → Hits → Bool × Hits
  unfolding admit current
  acquire_key key now hits = admit key now hits (current now (find key hits))

  -- `acquire`, with the time that `time_fn` gives.
  unfoldable pub acquire : Option String → String → ℕ → Hits → Bool × Hits
  unfolding acquire_key
  acquire caller flow_name now hits = acquire_key (key_of caller flow_name) now hits

-- A call of `acquire`.
pub record Request : Type 0 where
  pub caller : Option String
  pub flow_name : String
  pub now : ℕ

module _ (limiter : RateLimiter) where
  -- The answers to a sequence of calls, and what is stored after them.
  unfoldable pub serve : List Request → Hits → List Bool × Hits
  serve [] hits = ([], hits)
  serve (q ∷ requests) hits =
      let out = acquire limiter q.caller q.flow_name q.now hits in
      let rest = serve requests out.1 in (out.0 ∷ rest.0, rest.1)

  abbrev pub one_if : Bool → ℕ
  one_if true = 1
  one_if false = 0

  -- How many of the calls with this key are permitted.
  unfoldable pub permitted : Key → List Request → Hits → ℕ
  permitted key [] hits = 0
  permitted key (q ∷ requests) hits =
      let out = acquire limiter q.caller q.flow_name q.now hits in
      one_if (key_eq (key_of limiter q.caller q.flow_name) key && out.0)
      + permitted key requests out.1
