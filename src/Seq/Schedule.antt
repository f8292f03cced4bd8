-- ===== src/Seq/Schedule.antt =====
-- src/internal/mactelnet/seq.go: the retransmit schedules. A duration is an int64 of nanoseconds:
-- `nanos n` is n of them, and `negative n` any duration below zero.
use mactelnet_proxy.Base.{
  ℕ, zero, suc, ◌+◌, ◌-◌, ◌*◌, ◌/◌, if◌then◌else◌, ltb, leb, List, [], ◌∷◌, ◌++◌, Option, none,
  some, map,
}

abbrev pub millisecond : ℕ
millisecond = 1_000_000

abbrev pub second : ℕ
second = 1_000_000_000

abbrev pub i64_max : ℕ
i64_max = 9_223_372_036_854_775_807

abbrev pub upstream_ramp : List ℕ
upstream_ramp = map (λ ms. ms * millisecond) (15 ∷ 20 ∷ 30 ∷ 50 ∷ 90 ∷ 170 ∷ 330 ∷ 660 ∷ 1000 ∷ [])

pub data Duration : Type 0 where
  negative : ℕ → Duration
  nanos : ℕ → Duration

-- The first loop: the entries of the ramp while their sum stays within the budget.
unfoldable pub ramp_prefix : ℕ → ℕ → List ℕ → List ℕ → List ℕ × ℕ
ramp_prefix budget sum out [] = (out, sum)
ramp_prefix budget sum out (iv ∷ ivs) =
    let rest = ramp_prefix budget (sum + iv) (out ++ iv ∷ []) ivs in
    if ltb budget (sum + iv) then (out, sum) else rest

-- The second loop: entries of one second. `none` is the overflow of the int64 sum, after which
-- the source's loop appends without end; it needs a budget within a second of 292 years.
unfoldable pub pad : ℕ → ℕ → ℕ → List ℕ → Option (List ℕ × ℕ)
pad zero budget sum out = none
pad (suc fuel) budget sum out =
    let rest = pad fuel budget (sum + second) (out ++ second ∷ []) in
    if ltb i64_max (sum + second)
    then none
    else if leb (sum + second) budget
    then rest
    else some (out, sum)

-- The remainder, if any.
unfoldable pub append_rest : ℕ → List ℕ × ℕ → List ℕ
append_rest budget (out, sum) = let rem = budget - sum in if ltb 0 rem then out ++ rem ∷ [] else out

unfoldable pub build_from : ℕ → Option (List ℕ)
build_from budget =
    let (out, sum) = ramp_prefix budget 0 [] upstream_ramp in
    elim (pad (suc (budget / second)) budget sum out) [
      | none ↦ none
      | some r ↦ some (append_rest budget r)
    ]

-- `buildRetransmitSchedule`
unfoldable pub build_retransmit_schedule : Duration → Option (List ℕ)
build_retransmit_schedule (negative n) = some upstream_ramp
build_retransmit_schedule (nanos budget) =
    if leb budget 0 then some upstream_ramp else build_from budget

-- The package's two schedules.
pub record Schedules : Type 0 where
  pub auth_schedule : List ℕ
  pub data_schedule : List ℕ

-- `Configure`
unfoldable pub configure : Duration → Duration → Option Schedules
configure auth_budget data_budget = elim (build_retransmit_schedule auth_budget) [
  | none ↦ none
  | some a ↦ elim (build_retransmit_schedule data_budget) [
    | none ↦ none
    | some d ↦ some (record { auth_schedule = a; data_schedule = d })
  ]
]
