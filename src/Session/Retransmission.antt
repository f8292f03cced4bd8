-- ===== src/Session/Retransmission.antt =====
-- The loop of sendDataAndWaitAck of src/internal/mactelnet/session.go over its schedule.
use mactelnet_proxy.Base.{
  ℕ, suc, ◌≤◌, ◌≡◌, ◌⊎◌, inl, inr, refl, sym, ◌∙◌, ap, arith, Bool, true, false, if◌then◌else◌,
  ◌==◌, List, [], ◌∷◌, ◌++◌, append_assoc, append-nil, Bytes, Option, none, some, length, replicate,
  Bool-cases,
}
use mactelnet_proxy.Session.State.{
  Session, SessionError, retransmit_exhausted, send_failed, Takes, post,
}
use mactelnet_proxy.Session.Outbound.{
  Attempt, timer, Waited, acked, ack_timeout, ctx_err, wait_for_ack, next_attempt, later_attempts,
  retransmit,
}

-- The state after k packets.
abbrev pub sent_times : ℕ → Bytes → Session → Session
sent_times k pkt s = record s { sent = s.sent ++ replicate k pkt }

abbrev pub SentUpTo : ℕ → Bytes → Session → Session × Option SessionError → Type 0
SentUpTo n pkt s r = (k : ℕ) × (k ≤ n) × (r.0 ≡ sent_times k pkt s)

sent_one :
    (pkt : Bytes) (s : Session) → sent_times 1 pkt s ≡ (record s { sent = s.sent ++ pkt ∷ [] })
sent_one pkt s = refl

sent_more :
    (n : ℕ) (pkt : Bytes) (s : Session) (r : Session × Option SessionError)
    → SentUpTo n pkt (sent_times 1 pkt s) r
    → SentUpTo (suc n) pkt s r
sent_more n pkt s r (k, le, e) = (
  suc k,
  omega arith,
  e ∙ ap (λ t. record s { sent = t }) (append_assoc s.sent (pkt ∷ []) (replicate k pkt)),
)

none_sent : (n : ℕ) (pkt : Bytes) (s : Session) (e : Option SessionError) → SentUpTo n pkt s (s, e)
none_sent n pkt s e = (0, omega arith, ap (λ t. record s { sent = t }) (sym (append-nil s.sent)))

-- One round of the loop, by how its wait ended and whether the sender then took the packet.
after_wait :
    (takes : Takes) (pkt : Bytes) (want d : ℕ) (schedule : List ℕ) (world : List Attempt)
    (s : Session)
    → (w : Waited) (t : Bool)
    → wait_for_ack want (next_attempt world).acks (next_attempt world).ended ≡ w
    → takes (length s.sent) ≡ t
    → retransmit takes pkt want (d ∷ schedule) world s ≡ elim w [
      | acked ↦ (s, none)
      | ctx_err e ↦ (s, some e)
      | ack_timeout ↦
          if t
          then retransmit takes pkt want schedule (later_attempts world) (sent_times 1 pkt s)
          else (sent_times 1 pkt s, some send_failed)
    ]
unfolding retransmit post
after_wait takes pkt want d schedule world s acked t e f = rw (e, retransmit) refl
after_wait takes pkt want d schedule world s (ctx_err x) t e f = rw (e, retransmit) refl
after_wait takes pkt want d schedule world s ack_timeout true e f = rw (e, f, retransmit) refl
after_wait takes pkt want d schedule world s ack_timeout false e f = rw (e, f, retransmit) refl

sent_in_round :
    (n : ℕ) (pkt : Bytes) (s : Session) (rest : Session × Option SessionError) (w : Waited)
    (t : Bool)
    → SentUpTo n pkt (sent_times 1 pkt s) rest
    → SentUpTo (suc n) pkt s (elim w [
      | acked ↦ (s, none)
      | ctx_err e ↦ (s, some e)
      | ack_timeout ↦ if t then rest else (sent_times 1 pkt s, some send_failed)
    ])
sent_in_round n pkt s rest acked t more = none_sent _ pkt s none
sent_in_round n pkt s rest (ctx_err x) t more = none_sent _ pkt s (some x)
sent_in_round n pkt s rest ack_timeout true more = sent_more n pkt s rest more
sent_in_round n pkt s rest ack_timeout false more =
    sent_more n pkt s (sent_times 1 pkt s, some send_failed)
      (none_sent n pkt (sent_times 1 pkt s) (some send_failed))

pub retransmit-SentUpTo :
    (takes : Takes) (pkt : Bytes) (want : ℕ) (schedule : List ℕ) (world : List Attempt)
    (s : Session)
    → SentUpTo (length schedule) pkt s (retransmit takes pkt want schedule world s)
retransmit-SentUpTo takes pkt want [] world s =
    unfold retransmit in none_sent 0 pkt s (some retransmit_exhausted)
retransmit-SentUpTo takes pkt want (d ∷ schedule) world s =
    let more =
      retransmit-SentUpTo takes pkt want schedule (later_attempts world) (sent_times 1 pkt s) in
    let w = wait_for_ack want (next_attempt world).acks (next_attempt world).ended in
    let t = takes (length s.sent) in
    rw (after_wait takes pkt want d schedule world s w t refl refl)
      (sent_in_round (length schedule) pkt s _ w t more)

-- The awaited counter is among those that a wait receives.
abbrev pub Heard : ℕ → List ℕ → Type 0
Heard want [] = ⊥
Heard want (a ∷ acks) = (a ≡ want) ⊎ Heard want acks

-- … in one of the waits that the schedule has.
abbrev pub HeardIn : ℕ → List ℕ → List Attempt → Type 0
HeardIn want [] world = ⊥
HeardIn want (d ∷ schedule) world =
    Heard want (next_attempt world).acks ⊎ HeardIn want schedule (later_attempts world)

-- Nobody cancels, and the sender takes every packet.
abbrev pub Patient : List Attempt → Type 0
Patient [] = Unit
Patient (a ∷ more) = (a.ended ≡ timer) × Patient more

Patient-later_attempts : (world : List Attempt) → Patient world → Patient (later_attempts world)
Patient-later_attempts [] p = tt
Patient-later_attempts (a ∷ more) p = p.1

wait-next : (world : List Attempt) → Patient world → (next_attempt world).ended ≡ timer
wait-next [] p = refl
wait-next (a ∷ more) p = p.0

-- A wait that nobody cancels succeeds exactly if it receives the awaited counter.
wait-Heard :
    (want : ℕ) (acks : List ℕ)
    → ((wait_for_ack want acks timer ≡ acked) × Heard want acks)
      ⊎ ((wait_for_ack want acks timer ≡ ack_timeout) × ¬ Heard want acks)
unfolding wait_for_ack
wait-Heard want [] = inr (refl, λ h. h)
wait-Heard want (a ∷ acks) = elim (Bool-cases (a == want)) [
  | inl e ↦ inl (rw (e, wait_for_ack) refl, inl (ground arith))
  | inr e ↦ elim (wait-Heard want acks) [
    | inl (w, h) ↦ inl (rw (e, wait_for_ack) w, inr h)
    | inr (w, h) ↦ inr (rw (e, wait_for_ack) w, λ k. elim k [ inl q ↦ ground arith | inr q ↦ h q ])
  ]
]

abbrev pub Outcome : Type 0 → Option SessionError → Type 0
Outcome P r = ((r ≡ none) × P) ⊎ ((r ≡ some retransmit_exhausted) × ¬ P)

pub retransmit-Outcome :
    (takes : Takes) (pkt : Bytes) (want : ℕ) (schedule : List ℕ) (world : List Attempt)
    (s : Session)
    → ((n : ℕ) → takes n ≡ true)
    → Patient world
    → Outcome (HeardIn want schedule world) (retransmit takes pkt want schedule world s).1
retransmit-Outcome takes pkt want [] world s ok p = unfold retransmit in inr (refl, λ h. h)
retransmit-Outcome takes pkt want (d ∷ schedule) world s ok p =
    let more =
      retransmit-Outcome takes pkt want schedule (later_attempts world) (sent_times 1 pkt s) ok
        (Patient-later_attempts world p) in
    let a = next_attempt world in
    elim (wait-Heard want a.acks) [
      | inl (w, h) ↦
          rw
            (after_wait takes pkt want d schedule world s acked true (rw (wait-next world p) w)
              (ok _))
            (inl (refl, inl h))
      | inr (w, h) ↦
          rw
            (after_wait takes pkt want d schedule world s ack_timeout true
              (rw (wait-next world p) w) (ok _))
            (elim more [
              | inl (e, q) ↦ inl (e, inr q)
              | inr (e, q) ↦ inr (e, λ k. elim k [ inl x ↦ h x | inr x ↦ q x ])
            ])
    ]
