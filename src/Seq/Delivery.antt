-- ===== src/Seq/Delivery.antt =====
-- What the counters of src/internal/mactelnet/seq.go guarantee for a stream of DATA packets.
use mactelnet_proxy.Base.{
  ℕ, zero, suc, ◌+◌, ◌%◌, ◌≤◌, ◌<◌, ◌≡◌, ◌↔◌, ◌⊎◌, inl, inr, refl, arith, Bool, true, false,
  u32_mod, List, [], ◌∷◌, ◌++◌, if◌then◌else◌, replicate, All, ap,
}
use mactelnet_proxy.Seq.Counters.{
  Counters, reserve_out, accept_incoming, ack_counter_for, zero_counters,
}

-- A counter is accepted exactly if none was before, if it is beyond the highest one, or if it is
-- more than 65535 behind it; then it becomes the highest, and else nothing changes.
pub accept_incoming_lem :
    (c : Counters) (seq : ℕ)
    → (((accept_incoming c seq).1 ≡ true)
        ↔ ((c.in_seen ≡ false) ⊎ (c.inc < seq) ⊎ (seq + 65_535 < c.inc)))
      × ((accept_incoming c seq).0
          ≡ (if (accept_incoming c seq).1 then record c { in_seen = true; inc = seq } else c))
unfolding accept_incoming
accept_incoming_lem c seq = ground arith

-- One packet of counter `seq` reaches the receiver k times; the answers in order.
unfoldable pub receive_copies : Counters → ℕ → ℕ → Counters × List Bool
receive_copies r seq zero = (r, [])
receive_copies r seq (suc k) =
    let (r', new) = accept_incoming r seq in
    let (r'', rest) = receive_copies r' seq k in (r'', new ∷ rest)

-- Packets of given sizes, each sent once and repeated as often as the second number says, reach
-- the receiver in order.
unfoldable pub run_stream : Counters → Counters → List (ℕ × ℕ) → List Bool
run_stream s r [] = []
run_stream s r ((n, k) ∷ ps) =
    let (s', seq) = reserve_out s n in
    let (r', answers) = receive_copies r seq (suc k) in answers ++ run_stream s' r' ps

-- Each packet new the first time, and only then.
abbrev pub once_each : List (ℕ × ℕ) → List Bool
once_each [] = []
once_each ((n, k) ∷ ps) = true ∷ (replicate k false ++ once_each ps)

abbrev pub IsSize : ℕ × ℕ → Type 0
IsSize p = (0 < p.0) × (p.0 + 65_536 ≤ u32_mod)

-- Either nothing was received yet, or the sender is one packet of n bytes past the last one.
abbrev pub InStep : Counters → Counters → ℕ → Type 0
InStep s r n =
    (r.in_seen ≡ false) ⊎ (IsSize (n, 0) × (r.inc < u32_mod) × (s.out ≡ (r.inc + n) % u32_mod))

accept_again :
    (r : Counters) (seq k : ℕ)
    → r.in_seen ≡ true
    → r.inc ≡ seq
    → receive_copies r seq k ≡ (r, replicate k false)
unfolding receive_copies accept_incoming
accept_again r seq zero seen e = refl
accept_again r seq (suc k) seen e = ground (arith, accept_again r seq k)

pub accept_next :
    (s r : Counters) (n : ℕ)
    → s.out < u32_mod
    → InStep s r n
    → accept_incoming r s.out ≡ (record r { in_seen = true; inc = s.out }, true)
unfolding accept_incoming
accept_next s r n h v = ground arith

receive_next :
    (s r : Counters) (n k : ℕ)
    → s.out < u32_mod
    → InStep s r n
    → receive_copies r s.out (suc k)
      ≡ (record r { in_seen = true; inc = s.out }, true ∷ replicate k false)
unfolding receive_copies
receive_next s r n k h v = ground (
  arith,
  accept_next s r n,
  accept_again (record r { in_seen = true; inc = s.out }) s.out k refl refl,
)

run_stream_from :
    (ps : List (ℕ × ℕ)) (s r : Counters) (n : ℕ)
    → All IsSize ps
    → s.out < u32_mod
    → InStep s r n
    → run_stream s r ps ≡ once_each ps
unfolding run_stream reserve_out
run_stream_from [] s r n sizes h v = refl
run_stream_from ((m, k) ∷ ps) s r n sizes h v = rw (receive_next s r n k h v) (
    ap (λ t. true ∷ (replicate k false ++ t))
      (run_stream_from ps (record s { out = (s.out + m) % u32_mod })
        (record r { in_seen = true; inc = s.out }) m sizes.1 (omega arith)
        (inr (sizes.0, h, refl))))

-- Whatever their sizes between 1 and 2^32 - 65536 bytes and however often each is retransmitted, the packets of a
-- new session's peer are each accepted the first time and dropped every other time, also where
-- the 32-bit counter wraps.
pub run_stream-once_each :
    (ps : List (ℕ × ℕ)) (s : Counters)
    → All IsSize ps
    → s.out < u32_mod
    → run_stream s zero_counters ps ≡ once_each ps
run_stream-once_each ps s sizes h = run_stream_from ps s zero_counters 0 sizes h (inl refl)

-- The acknowledgement that is awaited for a packet of n bytes is the sender's counter after it,
-- which is below 2^32, and so is the counter of the next packet.
pub ack_counter_for-reserve_out :
    (s : Counters) (n m : ℕ)
    → let (s', seq) = reserve_out s n in
      (ack_counter_for seq n ≡ s'.out)
      × ((reserve_out s' m).1 ≡ ack_counter_for seq n)
      × (s'.out < u32_mod)
unfolding ack_counter_for reserve_out
ack_counter_for-reserve_out s n m = ground arith
