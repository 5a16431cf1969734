-- ===== src/Clock.antt =====
-- The times of protocol_tcp/main.c and protocol_udp/mainUDP.c.
pub mod Tests
use protocol_pfe.Base.{ℕ, ◌+◌, ◌-◌, ◌*◌, ◌≤◌, ◌<◌, ◌≡◌, ltb, if◌then◌else◌, arith}

-- `struct timeval`
pub record Timeval : Type 0 where
  pub tv_sec : ℕ
  pub tv_usec : ℕ

-- measure_time_difference, for a `now` whose seconds are not before those of `past`. The function
-- returns milliseconds as a double, which is this number of microseconds by 1000.
unfoldable pub measure_time_difference : Timeval → Timeval → ℕ
measure_time_difference now past =
    let sec = now.tv_sec - past.tv_sec in
    let usec =
      if ltb past.tv_usec now.tv_usec
      then now.tv_usec - past.tv_usec
      else past.tv_usec - now.tv_usec in
    1000 * (1000 * sec) + usec

-- The microseconds since the epoch.
abbrev pub instant : Timeval → ℕ
instant t = t.tv_sec * 1000000 + t.tv_usec

-- Where the seconds of `now` are not before those of `past`, measure_time_difference is the time
-- from `past` to `now`, and twice the difference of the microseconds more where those of `now`
-- are the smaller ones.
pub measure_time_difference_lem :
    (now past : Timeval)
    → past.tv_sec ≤ now.tv_sec
    → instant past + measure_time_difference now past
      ≡ instant now + 2 * (past.tv_usec - now.tv_usec)
unfolding measure_time_difference
measure_time_difference_lem now past h = ground arith
