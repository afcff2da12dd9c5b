-- ===== src/Timeout.antt =====
-- timeoutset.go: a set whose members expire. The clock is an argument of each operation, in
-- nanoseconds; the timeout is not negative, so a clock that runs backwards keeps members.
pub mod Log
use cow.Base.{
  ℕ, ◌-◌, Bool, true, false, none, some, [], ltb, if◌then◌else◌, Bytes, Map, lookup, insert, delete,
}

pub record TimeoutSet : Type 0 where
  pub time : Map ℕ
  pub timeout : ℕ

unfoldable pub new_timeout_set : ℕ → TimeoutSet
new_timeout_set timeout = record { time = []; timeout = timeout }

unfoldable pub add : ℕ → Bytes → TimeoutSet → TimeoutSet
add now key ts = record ts { time = insert key now ts.time }

unfoldable pub del : Bytes → TimeoutSet → TimeoutSet
del key ts = record ts { time = delete key ts.time }

-- The answer, and the set without the member that was found expired.
unfoldable pub has : ℕ → Bytes → TimeoutSet → Bool × TimeoutSet
unfolding del
has now key ts = elim (lookup key ts.time) [
  | none ↦ (false, ts)
  | some t ↦ if ltb ts.timeout (now - t) then (false, del key ts) else (true, ts)
]
