-- ===== src/Frame/Timeout.antt =====
-- src/internal/mactelnet/conn.go: the timeout of the raw receiver's socket.
use mactelnet_proxy.Base.{
  ℕ, ◌+◌, ◌*◌, ◌-◌, ◌/◌, ◌%◌, ◌≤◌, ◌<◌, arith, if◌then◌else◌, ltb, ◌==◌, Option, none, some,
  Bool-cases, inl, inr,
}
use mactelnet_proxy.Seq.Schedule.{Duration, negative, nanos}

abbrev i63 : ℕ
i63 = 9_223_372_036_854_775_808

abbrev i64 : ℕ
i64 = 18_446_744_073_709_551_616

-- `syscall.Timeval`, its seconds an int64 in two's complement.
pub record Timeval : Type 0 where
  pub sec : ℕ
  pub usec : ℕ

-- The one for the negative number of n nanoseconds, cut towards zero and then brought to positive microseconds.
pub negative_timeval : ℕ → Timeval
negative_timeval n =
    let usec = n % 1_000_000_000 / 1_000 in
    if usec == 0
    then record { sec = i64 - n / 1_000_000_000; usec = 0 }
    else record { sec = i64 - n / 1_000_000_000 - 1; usec = 1_000_000 - usec }

-- `syscall.NsecToTimeval`, which rounds up to microseconds.
unfoldable pub nsec_to_timeval : ℕ → Timeval
nsec_to_timeval nsec =
    let n = nsec + 999 in
    if ltb n i63
    then record { sec = n / 1_000_000_000; usec = n % 1_000_000_000 / 1_000 }
    else negative_timeval (i64 - n)

-- What `rawReceiver.SetReadDeadline` puts into SO_RCVTIMEO, from the time that is left; no time at
-- all is a zero `time.Time`. The kernel waits for ever on zero.
unfoldable pub read_timeout : Option Duration → Timeval
read_timeout none = record { sec = 0; usec = 0 }
read_timeout (some (negative n)) = nsec_to_timeval 1_000
read_timeout (some (nanos d)) = nsec_to_timeval d

abbrev pub nanoseconds : Timeval → ℕ
nanoseconds tv = tv.sec * 1_000_000_000 + tv.usec * 1_000

-- A deadline that is ahead, by at most 999 ns below the longest duration, is waited for, and less
-- than a microsecond longer; in particular the wait has an end.
pub read_timeout_waits :
    (d : ℕ)
    → 1 ≤ d
    → d + 999 < i63
    → (d ≤ nanoseconds (read_timeout (some (nanos d))))
      × (nanoseconds (read_timeout (some (nanos d))) < d + 1_000)
      × ((read_timeout (some (nanos d))).usec < 1_000_000)
unfolding read_timeout nsec_to_timeval
read_timeout_waits d ahead room = elim (Bool-cases (ltb (d + 999) i63)) [
  | inl e ↦ rw (e, nsec_to_timeval) (omega arith, omega arith, omega arith)
  | inr e ↦ absurd (ground arith)
]
