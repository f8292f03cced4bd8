-- ===== src/Seq/Examples.antt =====
-- Runs of the counters and schedules of src/internal/mactelnet/seq.go.
use mactelnet_proxy.Base.{
  ℕ, ◌+◌, ◌<◌, ◌≡◌, ◌↔◌, ◌⊎◌, arith, true, false, List, [], ◌∷◌, if◌then◌else◌, some,
}
use mactelnet_proxy.Seq.Counters.{Counters, zero_counters, accept_incoming}
use mactelnet_proxy.Seq.Schedule.{nanos, build_retransmit_schedule}
use mactelnet_proxy.Seq.Delivery.{run_stream, run_stream-once_each, accept_incoming_lem}
use mactelnet_proxy.Seq.Budget.{Schedules, build_retransmit_schedule-Schedules}

-- A sender just below the wrap, and a receiver far behind.
abbrev near_wrap : Counters
near_wrap = record { out = 4_294_967_290; inc = 100_000; in_seen = true }

run_stream-once_each_example :
    run_stream near_wrap zero_counters ((9, 1) ∷ (20, 0) ∷ (1, 2) ∷ [])
    ≡ true ∷ false ∷ true ∷ true ∷ false ∷ false ∷ []
run_stream-once_each_example =
    run_stream-once_each ((9, 1) ∷ (20, 0) ∷ (1, 2) ∷ []) near_wrap (ground arith) (omega arith)

accept_incoming_lem_test :
    (((accept_incoming near_wrap 3).1 ≡ true)
      ↔ ((true ≡ false) ⊎ (100_000 < 3) ⊎ (3 + 65_535 < 100_000)))
    × ((accept_incoming near_wrap 3).0 ≡ (
        if (accept_incoming near_wrap 3).1
        then record near_wrap { in_seen = true; inc = 3 }
        else near_wrap))
accept_incoming_lem_test = accept_incoming_lem near_wrap 3

build_retransmit_schedule-Schedules_example :
    (out : List ℕ) × (build_retransmit_schedule (nanos 3_000_000_000) ≡ some out)
    × Schedules 3_000_000_000 out
build_retransmit_schedule-Schedules_example =
    build_retransmit_schedule-Schedules (nanos 3_000_000_000) (omega arith)
