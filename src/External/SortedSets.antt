-- ===== src/External/SortedSets.antt =====
-- The sorted sets of Redis, as `ZREMRANGEBYSCORE`, `ZCARD`, `ZADD`, `ZRANGE` and `PEXPIRE` treat
-- them. A member is the text `${score}:${random}`, stored under its score. Times are in
-- milliseconds.
use distributed_nestjs_event.Base.{
  ℕ, ◌+◌, ◌≤◌, ◌≡◌, Bool, true, Option, none, some, List, [], filter, length, ◌==◌, ◌&&◌, ltb,
  if◌then◌else◌,
}

pub record Member : Type 0 where
  pub score : ℕ
  pub random : ℕ

abbrev pub same_member : Member → Member → Bool
same_member a b = a.score == b.score && a.random == b.random

-- Whether a score is above a bound, where `none` is a negative bound.
abbrev pub above : Option ℕ → Member → Bool
above none m = true
above (some b) m = ltb b m.score

pub record SortedSets : Type 1 where
  pub Store : Type 0
  -- the members of a key at a time
  pub members : ℕ → ℕ → Store → List Member
  -- the members of the scores from 0 to a bound go
  pub zremrangebyscore : ℕ → ℕ → Option ℕ → Store → Store
  pub zcard : ℕ → ℕ → Store → ℕ
  pub zadd : ℕ → ℕ → Member → Store → Store
  -- `ZRANGE key 0 0`: the first member, if there is one, without its score
  pub zrange_first : ℕ → ℕ → Store → List Member
  pub pexpire : ℕ → ℕ → ℕ → Store → Store
  pub zcard-members : (t k : ℕ) (s : Store) → zcard t k s ≡ length (members t k s)
  pub length-zrange_first : (t k : ℕ) (s : Store) → length (zrange_first t k s) ≤ 1
  pub members-zremrangebyscore :
      (t u k : ℕ) (b : Option ℕ) (s : Store)
      → t ≤ u
      → members u k (zremrangebyscore t k b s) ≡ filter (above b) (members u k s)
  -- a member that is not there is added once, wherever the order puts it
  pub members-zadd :
      (t k : ℕ) (m : Member) (p : Member → Bool) (s : Store)
      → length (filter (same_member m) (members t k s)) ≡ 0
      → length (filter p (members t k (zadd t k m s)))
        ≡ (if p m then 1 else 0) + length (filter p (members t k s))
  pub members-pexpire :
      (t u k ttl : ℕ) (s : Store)
      → t ≤ u
      → members u k (pexpire t k ttl s) ≡ (if ltb u (t + ttl) then members t k s else [])
