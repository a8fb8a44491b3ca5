-- ===== src/Gateway/Tests.antt =====
-- A rate limiter over sorted sets in memory, and the theorems at it.
use distributed_nestjs_event.Base.{
  [], ℕ, ◌+◌, ◌≤◌, ◌≡◌, ◌⊎◌, refl, Bool, Option, none, some, List, ◌∷◌, filter, length, arith, ltb,
  leb, if◌then◌else◌, ok, answered, rejected, ◌==◌,
}
use distributed_nestjs_event.External.SortedSets.{SortedSets, Member, same_member, above}
use distributed_nestjs_event.Gateway.RateLimit.{
  RateLimitConfig, handled, too_many, ceil_seconds, State, intercept,
}
use distributed_nestjs_event.Gateway.RateLimit.Window.{recent, count, run}
use distributed_nestjs_event.Gateway.RateLimit.Refinement.{
  window_log, last_time, run_refines, intercept-too_many,
}

-- The members of a key, the last one first, and the time when the key goes.
pub record Cell : Type 0 where
  pub until : ℕ
  pub held : List Member

abbrev Cells : Type 0
Cells = ℕ → Cell

abbrev cell_members : ℕ → ℕ → Cells → List Member
cell_members t k s = if ltb t (s k).until then (s k).held else []

abbrev put : ℕ → Cell → Cells → Cells
put k c s = λ j. if k == j then c else s j

abbrev trim : ℕ → ℕ → Option ℕ → Cells → Cells
trim t k b s = put k (record { until = (s k).until; held = filter (above b) (s k).held }) s

abbrev put_member : List Member → Member → List Member
put_member ms m = if leb 1 (length (filter (same_member m) ms)) then ms else m ∷ ms

-- A key without members is made anew, and stays until it is told otherwise: at least to the end of
-- the second.
abbrev add : ℕ → ℕ → Member → Cells → Cells
add t k m s =
    put k
      (record {
        until = if ltb t (s k).until then (s k).until else t + 1000;
        held = put_member (cell_members t k s) m;
      })
      s

abbrev first_of : List Member → List Member
first_of [] = []
first_of (m ∷ ms) = m ∷ []

abbrev keep_for : ℕ → ℕ → ℕ → Cells → Cells
keep_for t k ttl s = put k (record { until = t + ttl; held = cell_members t k s }) s

length-first_of : (ms : List Member) → length (first_of ms) ≤ 1
length-first_of [] = ground arith
length-first_of (m ∷ ms) = ground arith

members-trim :
    (t u k : ℕ) (b : Option ℕ) (s : Cells)
    → t ≤ u
    → cell_members u k (trim t k b s) ≡ filter (above b) (cell_members u k s)
members-trim t u k b s h = ground arith

members-add :
    (t k : ℕ) (m : Member) (p : Member → Bool) (s : Cells)
    → length (filter (same_member m) (cell_members t k s)) ≡ 0
    → length (filter p (cell_members t k (add t k m s)))
      ≡ (if p m then 1 else 0) + length (filter p (cell_members t k s))
members-add t k m p s h = ground (arith, h)

members-keep_for :
    (t u k ttl : ℕ) (s : Cells)
    → t ≤ u
    → cell_members u k (keep_for t k ttl s) ≡ (if ltb u (t + ttl) then cell_members t k s else [])
members-keep_for t u k ttl s h = ground arith

abbrev memory_sets : SortedSets
memory_sets = record {
  Store = Cells;
  members = cell_members;
  zremrangebyscore = trim;
  zcard = λ t k s. length (cell_members t k s);
  zadd = add;
  zrange_first = λ t k s. first_of (cell_members t k s);
  pexpire = keep_for;
  zcard-members = λ t k s. refl;
  length-zrange_first = λ t k s. length-first_of (cell_members t k s);
  members-zremrangebyscore = members-trim;
  members-zadd = members-add;
  members-pexpire = members-keep_for;
}

abbrev opening : State memory_sets 3
opening = record {
  now = 0;
  redis = λ k. record { until = 0; held = [] };
  random = 0;
  limit_header = none;
  remaining_header = none;
  reset_header = none;
}

-- Two requests in ten milliseconds.
abbrev config : RateLimitConfig
config = record { window_ms = 10; max = 2 }

abbrev at : ℕ → ℕ → Member
at t n = record { score = t; random = n }

abbrev requests : List Member
requests = at 100 1 ∷ at 100 2 ∷ at 105 3 ∷ at 111 4 ∷ at 112 5 ∷ []

requests_run : window_log config requests [] ≡ at 112 5 ∷ at 111 4 ∷ at 100 2 ∷ at 100 1 ∷ []
unfolding window_log
requests_run = refl

last_request : last_time 0 requests ≤ 112
unfolding last_time
last_request = ground arith

run_refines_example :
    ((run memory_sets 3 config requests opening []).1 ≡ window_log config requests [])
    × (count (recent 10 112) (run memory_sets 3 config requests opening []).1 ≤ 2)
run_refines_example =
    run_refines memory_sets 3 config requests opening 112 (ground arith) (λ t. ground arith)
      (ground arith) last_request

intercept-too_many_example :
    ((intercept memory_sets 3 (some config) opening (answered ∷ rejected ∷ [])).0 ≡ ok handled)
    ⊎ (((intercept memory_sets 3 (some config) opening (answered ∷ rejected ∷ [])).0
          ≡ ok (too_many (ceil_seconds 10)))
        × ((intercept memory_sets 3 (some config) opening (answered ∷ rejected ∷ [])).1.reset_header
            ≡ some 10))
intercept-too_many_example =
    intercept-too_many memory_sets 3 config opening (answered ∷ rejected ∷ [])
