-- ===== src/Site/Visit.antt =====
-- sitestat.go: `VisitCnt`. A count is a vcntint, an int8: its bit pattern, below 256. Times are
-- nanoseconds; `zero_time` is the time before all others. The clock, the state of the network and
-- the random draw of `AsBlocked` are arguments.
pub mod Count
pub mod Learn
use cow.Base.{
  ℕ, ◌+◌, ◌-◌, ◌*◌, ◌%◌, ◌^◌, Bool, true, not, ◌&&◌, ◌||◌, ltb, ◌==◌, if◌then◌else◌, signed_lt,
  signed_ge, signed_sub, int8_half,
}

abbrev pub direct_delta : ℕ
direct_delta = 5

abbrev pub blocked_delta : ℕ
blocked_delta = 5

abbrev pub max_cnt : ℕ
max_cnt = 100

-- The pattern of -1.
abbrev pub user_cnt : ℕ
user_cnt = 255

abbrev pub zero_time : ℕ
zero_time = 0

abbrev pub second : ℕ
second = 10 ^ 9

abbrev pub site_stale_threshold : ℕ
site_stale_threshold = 10 * 24 * 3600 * second

abbrev pub tmp_blocked_timeout : ℕ
tmp_blocked_timeout = 2 * 60 * second

pub record VisitCnt : Type 0 where
  pub direct : ℕ
  pub blocked : ℕ
  pub recent : ℕ
  pub r_updated : Bool
  pub blocked_on : ℕ

unfoldable pub new_visit_cnt_with_time : ℕ → ℕ → ℕ → VisitCnt
new_visit_cnt_with_time direct blocked t = record {
  direct = direct;
  blocked = blocked;
  recent = t;
  r_updated = true;
  blocked_on = zero_time;
}

unfoldable pub new_visit_cnt : ℕ → ℕ → ℕ → VisitCnt
new_visit_cnt now direct blocked = record {
  direct = direct;
  blocked = blocked;
  recent = now;
  r_updated = true;
  blocked_on = zero_time;
}

unfoldable pub user_specified : VisitCnt → Bool
user_specified vc = vc.blocked == user_cnt || vc.direct == user_cnt

unfoldable pub is_stale : ℕ → VisitCnt → Bool
is_stale now vc = ltb site_stale_threshold (now - vc.recent)

unfoldable pub should_not_save : ℕ → VisitCnt → Bool
unfolding user_specified is_stale
should_not_save now vc =
    user_specified vc || (is_stale now vc || (vc.blocked == 0 && vc.direct == 0))

unfoldable pub as_temp_blocked : ℕ → VisitCnt → Bool
as_temp_blocked now vc = ltb (now - vc.blocked_on) tmp_blocked_timeout

unfoldable pub always_direct : VisitCnt → Bool
always_direct vc = vc.direct == user_cnt

unfoldable pub always_blocked : VisitCnt → Bool
always_blocked vc = vc.blocked == user_cnt

unfoldable pub as_direct : VisitCnt → Bool
unfolding always_direct
as_direct vc =
    vc.blocked == 0
    || (signed_ge int8_half (signed_sub int8_half vc.direct vc.blocked) direct_delta
        || always_direct vc)

-- `draw` is the result of `rand.Intn(int(delta))`.
unfoldable pub as_blocked : ℕ → ℕ → VisitCnt → Bool
unfolding as_temp_blocked
as_blocked now draw vc =
    if vc.blocked == user_cnt || as_temp_blocked now vc
    then true
    else signed_ge int8_half (signed_sub int8_half vc.blocked vc.direct) blocked_delta
      && not (draw == 0)

unfoldable pub once_blocked : ℕ → VisitCnt → Bool
unfolding always_blocked as_temp_blocked
once_blocked now vc =
    signed_lt int8_half 0 vc.blocked || (always_blocked vc || as_temp_blocked now vc)

unfoldable pub temp_blocked : ℕ → VisitCnt → VisitCnt
temp_blocked now vc = record vc { blocked_on = now }

-- What `visit` does to the count that it is given.
unfoldable pub increase : ℕ → ℕ
increase inc =
    let up = if signed_lt int8_half inc max_cnt then (inc + 1) % 256 else inc in
    if signed_lt int8_half max_cnt up || signed_lt int8_half up 0 then max_cnt else up

-- What `visit` does to the date of the last visit.
unfoldable pub touch : ℕ → VisitCnt → VisitCnt
touch now vc = if not vc.r_updated then record vc { r_updated = true; recent = now } else vc

unfoldable pub direct_visit : Bool → ℕ → VisitCnt → VisitCnt
unfolding user_specified increase touch
direct_visit network_bad now vc =
    if network_bad || user_specified vc
    then vc
    else record (touch now vc) { direct = increase vc.direct; blocked = 0 }

unfoldable pub blocked_visit : Bool → ℕ → VisitCnt → VisitCnt
unfolding user_specified increase touch
blocked_visit network_bad now vc =
    if network_bad || user_specified vc
    then vc
    else record (touch now vc) { blocked = increase vc.blocked; direct = 0 }
