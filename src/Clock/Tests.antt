-- ===== src/Clock/Tests.antt =====
-- A tenth of a second, which is measured as 1.9 seconds.
use protocol_pfe.Base.{◌+◌, ◌-◌, ◌*◌, ◌≡◌, arith}
use protocol_pfe.Clock.{Timeval, measure_time_difference, instant, measure_time_difference_lem}

abbrev earlier : Timeval
earlier = record { tv_sec = 1; tv_usec = 900000 }

abbrev later : Timeval
later = record { tv_sec = 2; tv_usec = 0 }

measure_time_difference_lem_example :
    instant earlier + measure_time_difference later earlier
    ≡ instant later + 2 * (earlier.tv_usec - later.tv_usec)
measure_time_difference_lem_example = measure_time_difference_lem later earlier (omega arith)
