-- ===== src/Seq/Counters.antt =====
-- src/internal/mactelnet/seq.go: the byte counters of a session, uint32 in both directions.
use mactelnet_proxy.Base.{ℕ, ◌+◌, ◌-◌, ◌%◌, Bool, true, false, if◌then◌else◌, ltb, u32_mod}

-- The source's field `in` is spelled `inc` here, since `in` is reserved.
pub record Counters : Type 0 where
  pub out : ℕ
  pub inc : ℕ
  pub in_seen : Bool

-- A new session's counters.
abbrev pub zero_counters : Counters
zero_counters = record { out = 0; inc = 0; in_seen = false }

-- `reserveOut`: the counter to put on the wire, and the advanced state.
unfoldable pub reserve_out : Counters → ℕ → Counters × ℕ
reserve_out c n = (record c { out = (c.out + n) % u32_mod }, c.out)

-- `acceptIncoming`. The subtraction `c.in - seq` is reached with seq ≤ c.in only.
unfoldable pub accept_incoming : Counters → ℕ → Counters × Bool
accept_incoming c seq =
    if c.in_seen
    then (if ltb c.inc seq
        then (record c { inc = seq }, true)
        else if ltb 65_535 (c.inc - seq)
        then (record c { inc = seq }, true)
        else (c, false))
    else (record c { in_seen = true; inc = seq }, true)

-- `ackCounterFor`
unfoldable pub ack_counter_for : ℕ → ℕ → ℕ
ack_counter_for inbound_seq payload_len = (inbound_seq + payload_len) % u32_mod
