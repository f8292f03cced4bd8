-- ===== src/Seq/Budget.antt =====
-- What buildRetransmitSchedule of src/internal/mactelnet/seq.go returns.
use mactelnet_proxy.Base.{
  ℕ, zero, suc, ◌+◌, ◌-◌, ◌*◌, ◌/◌, ◌≤◌, ◌<◌, ◌≡◌, refl, arith, if◌then◌else◌, List, [], ◌∷◌, ◌++◌,
  Option, none, some, All, All-append, Option-cases, inl, inr, ◌==◌,
}
use mactelnet_proxy.Seq.Schedule.{
  second, millisecond, i64_max, upstream_ramp, Duration, negative, nanos, ramp_prefix, pad,
  append_rest, build_from, build_retransmit_schedule,
}

abbrev pub total : List ℕ → ℕ
total [] = 0
total (x ∷ xs) = x + total xs

total-append : (xs ys : List ℕ) → total (xs ++ ys) ≡ total xs + total ys
total-append [] ys = omega arith
total-append (x ∷ xs) ys = omega (arith, total-append xs ys)

-- An interval that the driver waits: positive, and one second at most.
abbrev pub IsInterval : ℕ → Type 0
IsInterval iv = (0 < iv) × (iv ≤ second)

record Partial (budget : ℕ) (r : List ℕ × ℕ) : Type 0 where
  sums : total r.0 ≡ r.1
  within : r.1 ≤ budget
  intervals : All IsInterval r.0

Partial-snoc :
    (budget sum iv : ℕ) (out : List ℕ)
    → Partial budget (out, sum)
    → IsInterval iv
    → sum + iv ≤ budget
    → Partial budget (out ++ iv ∷ [], sum + iv)
Partial-snoc budget sum iv out p i h = record {
  sums = omega (arith, total-append out (iv ∷ []), p.sums);
  within = h;
  intervals = All-append IsInterval out (iv ∷ []) p.intervals (i, tt);
}

ramp_prefix-Partial :
    (ivs : List ℕ) (budget sum : ℕ) (out : List ℕ)
    → All IsInterval ivs
    → Partial budget (out, sum)
    → Partial budget (ramp_prefix budget sum out ivs)
unfolding ramp_prefix
ramp_prefix-Partial [] budget sum out is p = p
ramp_prefix-Partial (iv ∷ ivs) budget sum out is p = ground (
  arith,
  Partial-snoc budget sum iv out p is.0,
  ramp_prefix-Partial ivs budget (sum + iv) (out ++ iv ∷ []),
)

-- The padding ends with less than a second of the budget left.
abbrev Padded : ℕ → Option (List ℕ × ℕ) → Type 0
Padded budget none = ⊥
Padded budget (some r) = Partial budget r × (budget < r.1 + second)

pad-Padded :
    (fuel budget sum : ℕ) (out : List ℕ)
    → Partial budget (out, sum)
    → budget < sum + fuel * second
    → budget + second ≤ i64_max
    → Padded budget (pad fuel budget sum out)
unfolding pad
pad-Padded zero budget sum out p h small = absurd (omega (arith, p.within))
pad-Padded (suc fuel) budget sum out p h small = ground (
  arith,
  Partial-snoc budget sum second out p (omega arith),
  pad-Padded fuel budget (sum + second) (out ++ second ∷ []),
)

abbrev pub Schedules : ℕ → List ℕ → Type 0
Schedules budget out = (total out ≡ budget) × All IsInterval out

append_rest-Schedules :
    (budget : ℕ) (r : List ℕ × ℕ)
    → Partial budget r
    → budget < r.1 + second
    → Schedules budget (append_rest budget r)
unfolding append_rest
append_rest-Schedules budget (out, sum) p h = ground (
  arith,
  total-append out ((budget - sum) ∷ []),
  All-append IsInterval out ((budget - sum) ∷ []) p.intervals,
)

build_from-Schedules :
    (budget : ℕ)
    → budget + second ≤ i64_max
    → (out : List ℕ) × (build_from budget ≡ some out) × Schedules budget out
unfolding build_from
build_from-Schedules budget small =
    let (out, sum) = ramp_prefix budget 0 [] upstream_ramp in
    let start =
      ramp_prefix-Partial upstream_ramp budget 0 [] (omega arith)
        (record { sums = refl; within = omega arith; intervals = tt }) in
    let padded = pad-Padded (suc (budget / second)) budget sum out start (omega arith) small in
    elim (Option-cases (pad (suc (budget / second)) budget sum out)) [
      | inl e ↦ absurd (rw e at padded)
      | inr (r, e) ↦
          let done = rw e at padded in
          (append_rest budget r, rw (e, build_from), append_rest-Schedules budget r done.0 done.1)
    ]

-- The time that a schedule is to take: the budget, or that of the upstream ramp.
abbrev pub effective : Duration → ℕ
effective (negative n) = 2365 * millisecond
effective (nanos b) = if b == 0 then 2365 * millisecond else b

-- Every budget up to a second below the largest duration gets a schedule: its intervals are
-- positive, of a second at most, and add up to exactly the budget, or to the 2.365 seconds of the
-- upstream ramp where the budget is zero or negative.
pub build_retransmit_schedule-Schedules :
    (d : Duration)
    → effective d + second ≤ i64_max
    → (out : List ℕ) × (build_retransmit_schedule d ≡ some out) × Schedules (effective d) out
unfolding build_retransmit_schedule
build_retransmit_schedule-Schedules (negative n) small = (upstream_ramp, refl, omega arith)
build_retransmit_schedule-Schedules (nanos zero) small = (upstream_ramp, refl, omega arith)
build_retransmit_schedule-Schedules (nanos (suc b)) small =
    let (out, e, s) = build_from-Schedules (suc b) (ground arith) in
    (out, ground (arith, e), ground (arith, s))
