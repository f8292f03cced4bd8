-- ===== src/Session/DeliveryLaws.antt =====
-- Where the records of an accepted packet go: src/internal/mactelnet/loop.go between two reads.
use mactelnet_proxy.Base.{
  suc, ◌+◌, ◌≤◌, ◌<◌, ◌≡◌, inl, inr, refl, sym, ◌∙◌, ap, arith, true, false, if◌then◌else◌, ltb,
  ◌==◌, List, [], ◌∷◌, ◌++◌, append_assoc, append-nil, Bytes, Option, none, some, length,
  length-append, Bool-cases,
}
use mathlib.Core.Path.{ap₂, subst}
use mactelnet_proxy.Wire.Header.{cp_type_plain_data}
use mactelnet_proxy.Wire.Control.{ControlRecord}
use mactelnet_proxy.Session.State.{Session, reading, delivering}
use mactelnet_proxy.Session.Inbound.{pipe_write, deliver, deliver_next}

-- The bytes that go to the pipe, and the records that go to the login.
abbrev pub plain_bytes : List ControlRecord → Bytes
plain_bytes [] = []
plain_bytes (r ∷ rs) =
    if r.cp_type == cp_type_plain_data then r.body ++ plain_bytes rs else plain_bytes rs

abbrev pub control_records : List ControlRecord → List ControlRecord
control_records [] = []
control_records (r ∷ rs) =
    if r.cp_type == cp_type_plain_data then control_records rs else r ∷ control_records rs

-- `deliver_next` until the loop is back at its read; `none` if it waits.
abbrev pub deliver_all : List ControlRecord → Session → Option Session
deliver_all [] s = deliver_next s
deliver_all (r ∷ rs) s = elim (deliver_next s) [ none ↦ none | some s' ↦ deliver_all rs s' ]

-- The session in the middle of a delivery.
abbrev pub mid : List ControlRecord → Bytes → List ControlRecord → Session → Session
mid rs pipe ctl s = record s { rx = delivering rs; rx_pipe = pipe; control_ch = ctl }

deliver_plain :
    (r : ControlRecord) (rs : List ControlRecord) (pipe : Bytes) (ctl : List ControlRecord)
    (s : Session)
    → (r.cp_type == cp_type_plain_data) ≡ true
    → s.pipe_w_open ≡ true
    → s.pipe_r_open ≡ true
    → deliver_next (mid (r ∷ rs) pipe ctl s)
      ≡ some (mid rs (pipe ++ (if s.terminal_mode then r.body else [])) ctl s)
unfolding deliver_next deliver pipe_write
deliver_plain r rs pipe ctl s plain w o = elim (Bool-cases s.terminal_mode) [
  | inl t ↦ simp (plain, w, o, t) refl
  | inr t ↦ simp (plain, t, append-nil pipe) refl
]

deliver_control :
    (r : ControlRecord) (rs : List ControlRecord) (pipe : Bytes) (ctl : List ControlRecord)
    (s : Session)
    → (r.cp_type == cp_type_plain_data) ≡ false
    → length ctl < 16
    → deliver_next (mid (r ∷ rs) pipe ctl s) ≡ some (mid rs pipe (ctl ++ r ∷ []) s)
unfolding deliver_next deliver
deliver_control r rs pipe ctl s plain room =
    let roomy : ltb (length ctl) 16 ≡ true = ground arith in simp (plain, roomy) refl

abbrev pub to_pipe : Session → List ControlRecord → Bytes
to_pipe s rs = if s.terminal_mode then plain_bytes rs else []

to_pipe-more :
    (r : ControlRecord) (rs : List ControlRecord) (s : Session)
    → (r.cp_type == cp_type_plain_data) ≡ true
    → to_pipe s (r ∷ rs) ≡ (if s.terminal_mode then r.body else []) ++ to_pipe s rs
to_pipe-more r rs s plain = elim (Bool-cases s.terminal_mode) [
  | inl t ↦ simp (plain, t) refl
  | inr t ↦ simp (plain, t) refl
]

to_pipe-same :
    (r : ControlRecord) (rs : List ControlRecord) (s : Session)
    → (r.cp_type == cp_type_plain_data) ≡ false
    → to_pipe s (r ∷ rs) ≡ to_pipe s rs
to_pipe-same r rs s plain = simp plain refl

to_pipe_none : (s : Session) → to_pipe s [] ≡ []
to_pipe_none s = elim (Bool-cases s.terminal_mode) [ inl t ↦ rw t refl | inr t ↦ rw t refl ]

control_records-plain :
    (r : ControlRecord) (rs : List ControlRecord)
    → (r.cp_type == cp_type_plain_data) ≡ true
    → control_records (r ∷ rs) ≡ control_records rs
control_records-plain r rs plain = rw plain refl

control_records-other :
    (r : ControlRecord) (rs : List ControlRecord)
    → (r.cp_type == cp_type_plain_data) ≡ false
    → control_records (r ∷ rs) ≡ r ∷ control_records rs
control_records-other r rs other = rw other refl

abbrev finished : Session → Bytes → List ControlRecord → Option Session
finished s pipe ctl = some (record s { rx = reading; rx_pipe = pipe; control_ch = ctl })

abbrev go_on : List ControlRecord → Option Session → Option Session
go_on rs none = none
go_on rs (some s) = deliver_all rs s

deliver_end :
    (pipe : Bytes) (ctl : List ControlRecord) (s : Session)
    → deliver_all [] (mid [] pipe ctl s) ≡ finished s pipe ctl
unfolding deliver_next
deliver_end pipe ctl s = refl

deliver_all_from :
    (rs : List ControlRecord) (pipe : Bytes) (ctl : List ControlRecord) (s : Session)
    → s.pipe_w_open ≡ true
    → s.pipe_r_open ≡ true
    → length ctl + length (control_records rs) ≤ 16
    → deliver_all rs (mid rs pipe ctl s)
      ≡ finished s (pipe ++ to_pipe s rs) (ctl ++ control_records rs)
deliver_all_from [] pipe ctl s w o room =
    deliver_end pipe ctl s
    ∙ ap₂ (finished s) (sym (ap (◌++◌ pipe) (to_pipe_none s) ∙ append-nil pipe))
        (sym (append-nil ctl))
deliver_all_from (r ∷ rs) pipe ctl s w o room =
    elim (Bool-cases (r.cp_type == cp_type_plain_data)) [
      | inl plain ↦
          let body = if s.terminal_mode then r.body else [] in
          let same = control_records-plain r rs plain in
          ap (go_on rs) (deliver_plain r rs pipe ctl s plain w o)
          ∙ deliver_all_from rs (pipe ++ body) ctl s w o
              (subst (λ l. length ctl + length l ≤ 16) same room)
          ∙ ap₂ (finished s)
              (append_assoc pipe body (to_pipe s rs)
                ∙ ap (◌++◌ pipe) (sym (to_pipe-more r rs s plain)))
              (ap (◌++◌ ctl) (sym same))
      | inr other ↦
          let more = control_records-other r rs other in
          let room' : length ctl + suc (length (control_records rs)) ≤ 16 =
            subst (λ l. length ctl + length l ≤ 16) more room in
          ap (go_on rs) (deliver_control r rs pipe ctl s other (omega (arith)))
          ∙ deliver_all_from rs pipe (ctl ++ r ∷ []) s w o
              (omega (arith, length-append ctl (r ∷ [])))
          ∙ ap₂ (finished s) (ap (◌++◌ pipe) (sym (to_pipe-same r rs s other)))
              (append_assoc ctl (r ∷ []) (control_records rs) ∙ ap (◌++◌ ctl) (sym more))
    ]

pub deliver_all_lem :
    (rs : List ControlRecord) (s : Session)
    → s.pipe_w_open ≡ true
    → s.pipe_r_open ≡ true
    → length s.control_ch + length (control_records rs) ≤ 16
    → deliver_all rs (record s { rx = delivering rs })
      ≡ some (record s {
        rx = reading;
        rx_pipe = s.rx_pipe ++ to_pipe s rs;
        control_ch = s.control_ch ++ control_records rs;
      })
deliver_all_lem rs s w o room = deliver_all_from rs s.rx_pipe s.control_ch s w o room
