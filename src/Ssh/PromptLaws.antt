-- ===== src/Ssh/PromptLaws.antt =====
-- The passwords that readPasswordPrompt of src/internal/sshserver/exec.go can return.
use mactelnet_proxy.Base.{
  ℕ, ◌+◌, ◌-◌, ◌≤◌, ◌<◌, ◌≡◌, ◌≢◌, refl, ◌∙◌, arith, Bool, true, false, if◌then◌else◌, List, [],
  ◌∷◌, ◌++◌, append_assoc, append-nil, Bytes, Result, ok, err, All, All-take, All-append, length,
  length-append, length-take, Result-cases, Bool-cases, ltb, ltb→lt, inl, inr,
}
use mathlib.Core.Path.{subst}
use mactelnet_proxy.Ssh.Prompt.{
  Reader, Edit, finish, go_on, refuse, edit, absorb_newline, Answer, password, failed, too_long,
  read_buffer, read_line, read_password_prompt,
}

abbrev pub IsPrintable : ℕ → Type 0
IsPrintable c = (0x20 ≤ c) × (c ≢ 0x7f)

-- At most 256 bytes, none of them a control character.
abbrev pub IsPassword : Bytes → Type 0
IsPassword pw = (length pw ≤ 256) × All IsPrintable pw

abbrev IsEdit : Edit → Type 0
IsEdit finish = Unit
IsEdit refuse = Unit
IsEdit (go_on sb) = IsPassword sb

edit-IsPassword : (c : ℕ) (sb : Bytes) → IsPassword sb → IsEdit (edit c sb)
unfolding edit
edit-IsPassword c sb p = ground (
  arith,
  length-append sb (c ∷ []),
  length-take (length sb - 1) sb,
  All-take IsPrintable (length sb - 1) sb p.1,
  All-append IsPrintable sb (c ∷ []) p.1,
)

abbrev IsAnswer : Answer → Type 0
IsAnswer (password pw r) = IsPassword pw
IsAnswer (failed e) = Unit

abbrev IsOutcome : Result Bytes Answer → Type 0
IsOutcome (ok a) = IsAnswer a
IsOutcome (err sb) = IsPassword sb

read_buffer-IsOutcome :
    (buf : Bytes) (later : List Bytes) (sb : Bytes)
    → IsPassword sb
    → IsOutcome (read_buffer buf later sb)
unfolding read_buffer
read_buffer-IsOutcome [] later sb p = p
read_buffer-IsOutcome (c ∷ buf) later sb p =
    after_edit (edit c sb) (edit-IsPassword c sb p) (λ sb' q. read_buffer-IsOutcome buf later sb' q)
  where
    after_edit :
        (e : Edit)
        → IsEdit e
        → ((sb' : Bytes) → IsPassword sb' → IsOutcome (read_buffer buf later sb'))
        → IsOutcome (elim e [
          | finish ↦ ok (password sb (record { buffered = absorb_newline c buf; later = later }))
          | refuse ↦ ok (failed too_long)
          | go_on sb' ↦ read_buffer buf later sb'
        ])
    after_edit finish q more = p
    after_edit refuse q more = tt
    after_edit (go_on sb') q more = more sb' q

read_line-IsAnswer :
    (buf : Bytes) (later : List Bytes) (sb : Bytes)
    → IsPassword sb
    → IsAnswer (read_line buf later sb)
unfolding read_line
read_line-IsAnswer buf [] sb p = elim (Result-cases (read_buffer buf [] sb)) [
  | inl (a, e) ↦ rw (e, read_line) (subst IsOutcome e (read_buffer-IsOutcome buf [] sb p))
  | inr (s, e) ↦ rw (e, read_line) tt
]
read_line-IsAnswer buf (chunk ∷ later) sb p =
    elim (Result-cases (read_buffer buf (chunk ∷ later) sb)) [
      | inl (a, e) ↦
          rw (e, read_line) (subst IsOutcome e (read_buffer-IsOutcome buf (chunk ∷ later) sb p))
      | inr (s, e) ↦
          rw (e, read_line)
            (read_line-IsAnswer chunk later s
              (subst IsOutcome e (read_buffer-IsOutcome buf (chunk ∷ later) sb p)))
    ]

answer-IsPassword :
    (a : Answer) (pw : Bytes) (r : Reader) → a ≡ password pw r → IsAnswer a → IsPassword pw
answer-IsPassword a pw r e h = subst IsAnswer e h

-- Whatever the client types, in whatever pieces it arrives, a password that is returned has at most
-- 256 bytes and no control character.
pub read_password_prompt-IsPassword :
    (wrote : Bool) (r r' : Reader) (pw : Bytes)
    → read_password_prompt wrote r ≡ password pw r'
    → IsPassword pw
unfolding read_password_prompt
read_password_prompt-IsPassword true r r' pw e =
    answer-IsPassword _ pw r' e (read_line-IsAnswer r.buffered r.later [] (omega arith, tt))
read_password_prompt-IsPassword false r r' pw e = absurd cc

edit_printable :
    (c : ℕ) (sb : Bytes) → IsPrintable c → length sb < 256 → edit c sb ≡ go_on (sb ++ c ∷ [])
unfolding edit
edit_printable c sb p room = ground arith

edit_full : (c : ℕ) (sb : Bytes) → IsPrintable c → 256 ≤ length sb → edit c sb ≡ refuse
unfolding edit
edit_full c sb p full = ground arith

read_buffer_typed :
    (pw : Bytes) (sb tail : Bytes) (later : List Bytes)
    → All IsPrintable pw
    → length sb + length pw ≤ 256
    → read_buffer (pw ++ tail) later sb ≡ read_buffer tail later (sb ++ pw)
unfolding read_buffer
read_buffer_typed [] sb tail later p room = rw append-nil
read_buffer_typed (c ∷ pw) sb tail later p room =
    rw (edit_printable c sb p.0 (omega arith), read_buffer)
      (read_buffer_typed pw (sb ++ c ∷ []) tail later p.1 (omega (arith, length-append sb (c ∷ [])))
        ∙ rw append_assoc)

read_buffer_over :
    (pw : Bytes) (sb tail : Bytes) (later : List Bytes)
    → All IsPrintable pw
    → length sb ≤ 256
    → 256 < length sb + length pw
    → read_buffer (pw ++ tail) later sb ≡ ok (failed too_long)
unfolding read_buffer
read_buffer_over [] sb tail later p low high = absurd (omega arith)
read_buffer_over (c ∷ pw) sb tail later p low high = elim (Bool-cases (ltb (length sb) 256)) [
  | inl room ↦
      rw (edit_printable c sb p.0 (ltb→lt _ _ room), read_buffer)
        (read_buffer_over pw (sb ++ c ∷ []) tail later p.1
          (omega (arith, length-append sb (c ∷ []), ltb→lt (length sb) 256 room))
          (omega (arith, length-append sb (c ∷ []))))
  | inr full ↦ rw (edit_full c sb p.0 (ground (arith, full)), read_buffer) refl
]

line_ends :
    (buf : Bytes) (later : List Bytes) (a : Answer)
    → read_buffer buf later [] ≡ ok a
    → read_line buf later [] ≡ a
unfolding read_line
line_ends buf [] a e = rw (e, read_line) refl
line_ends buf (chunk ∷ later) a e = rw (e, read_line) refl

abbrev pub line_of : Bytes → Bytes → List Bytes → Reader
line_of pw tail later = record { buffered = pw ++ tail; later = later }

-- Up to 256 printable bytes and a carriage return are read back as the password, and what follows
-- stays for the engine, less one newline; of more than 256 printable bytes none is a password.
pub read_password_prompt_typed :
    (pw rest : Bytes) (later : List Bytes)
    → All IsPrintable pw
    → read_password_prompt true (line_of pw (13 ∷ rest) later) ≡ (
        if ltb 256 (length pw)
        then failed too_long
        else password pw (record { buffered = absorb_newline 13 rest; later = later }))
unfolding read_password_prompt
read_password_prompt_typed pw rest later p = elim (Bool-cases (ltb 256 (length pw))) [
  | inl over ↦ rw over (
      line_ends (pw ++ 13 ∷ rest) later _
        (read_buffer_over pw [] (13 ∷ rest) later p (omega arith) (ground (arith, over))))
  | inr fits ↦ rw fits (
      line_ends (pw ++ 13 ∷ rest) later _ (
        read_buffer_typed pw [] (13 ∷ rest) later p (ground (arith, fits))
        ∙ unfold read_buffer edit in refl))
]
