-- ===== src/Session/WriteLaws.antt =====
-- What Write and Resize of src/internal/mactelnet/session.go put on the wire.
use mactelnet_proxy.Base.{
  ℕ, ◌+◌, ◌-◌, ◌≤◌, ◌≡◌, refl, sym, ◌∙◌, ap, arith, true, false, if◌then◌else◌, ltb, ◌==◌, List, [],
  ◌∷◌, ◌++◌, append-nil, Bytes, le16, overwrite, overwrite_fits, some, ok, err, length, take, drop,
  replicate, length-replicate, take-append_le, Bool-cases, inl, inr,
}
use mactelnet_proxy.Wire.Header.{
  cp_type_plain_data, cp_type_term_width, cp_type_term_height, cp_header_len, max_packet,
  header_len,
}
use mactelnet_proxy.Wire.Control.{ControlRecord, encode_control, records}
use mactelnet_proxy.Wire.Records.{wire, records-wire, records_empty}
use mactelnet_proxy.Auth.Messages.{encode_next}
use mactelnet_proxy.Seq.Schedule.{Schedules}
use mactelnet_proxy.Session.State.{Session, net_closed, write_too_large, Takes}
use mactelnet_proxy.Session.Outbound.{
  Attempt, send_data_and_wait_ack, sent_all, write, resize_payload, resize,
}

encode_control_plain :
    (p buf : Bytes)
    → length p ≤ length buf
    → encode_control buf cp_type_plain_data p ≡ ok (length p, overwrite p buf)
unfolding encode_control
encode_control_plain p buf h = ground arith

plain_payload : (p buf : Bytes) → length p ≤ length buf → take (length p) (overwrite p buf) ≡ p
plain_payload p buf h =
    rw (overwrite_fits p buf h) (take-append_le (length p) p (drop (length p) buf) refl)

write_fits :
    (takes : Takes) (sch : Schedules) (world : List Attempt) (p : Bytes) (s : Session)
    → s.closed ≡ false
    → 1 ≤ length p
    → length p ≤ 1469
    → write takes sch world p s ≡ sent_all (length p) (send_data_and_wait_ack takes sch world p s)
unfolding write
write_fits takes sch world p s open' low high =
    let room : length p ≤ length (replicate {A = ℕ} (cp_header_len + length p) 0) =
      omega (arith, length-replicate {A = ℕ} (cp_header_len + length p) 0) in
    let some_bytes : (length p == 0) ≡ false = ground arith in
    let small : ltb (max_packet - header_len) (length p + cp_header_len) ≡ false = ground arith in
    simp (open', some_bytes, small, encode_control_plain p _ room, plain_payload p _ room) refl

-- Write on a closed session fails; of no bytes it does nothing; of more than 1469 it fails; none of
-- these sends. Any other sends exactly the caller's bytes as the payload of one DATA packet.
pub write_lem :
    (takes : Takes) (sch : Schedules) (world : List Attempt) (p : Bytes) (s : Session)
    → write takes sch world p s ≡ (
        if s.closed
        then (s, err net_closed)
        else if length p == 0
        then (s, ok 0)
        else if ltb 1469 (length p)
        then (s, err (write_too_large (length p)))
        else sent_all (length p) (send_data_and_wait_ack takes sch world p s))
write_lem takes sch world p s = elim (Bool-cases s.closed) [
  | inl c ↦ unfold write in simp c refl
  | inr c ↦ elim (Bool-cases (length p == 0)) [
    | inl e ↦ unfold write in simp (c, e) refl
    | inr e ↦ elim (Bool-cases (ltb 1469 (length p))) [
      | inl big ↦
          let large : ltb (max_packet - header_len) (length p + cp_header_len) ≡ true =
            ground arith in
          unfold write in simp (c, e, big, large) refl
      | inr small ↦
          simp (c, e, small) (write_fits takes sch world p s c (ground arith) (ground arith))
    ]
  ]
]

abbrev pub size_records : ℕ → ℕ → List ControlRecord
size_records cols rows =
    (record { cp_type = cp_type_term_width; body = le16 cols })
    ∷ (record { cp_type = cp_type_term_height; body = le16 rows })
    ∷ []

-- On an open session Resize sends one DATA packet, whose payload is read back as exactly a width
-- and a height record of two little-endian bytes each; on a closed one it fails and sends nothing.
pub resize_lem :
    (takes : Takes) (sch : Schedules) (world : List Attempt) (cols rows : ℕ) (s : Session)
    → (records (wire (size_records cols rows)) ≡ size_records cols rows)
      × (resize takes sch world cols rows s ≡ (
          if s.closed
          then (s, some net_closed)
          else send_data_and_wait_ack takes sch world (wire (size_records cols rows)) s))
unfolding resize resize_payload encode_control encode_next
resize_lem takes sch world cols rows s = (
  ap records (sym (append-nil (wire (size_records cols rows))))
      ∙ records-wire (size_records cols rows) [] (omega arith)
      ∙ ap (◌++◌ (size_records cols rows)) records_empty,
  elim (Bool-cases s.closed) [ inl c ↦ simp c refl | inr c ↦ simp c refl ],
)
