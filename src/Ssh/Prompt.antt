-- ===== src/Ssh/Prompt.antt =====
-- src/internal/sshserver/exec.go: readPasswordPrompt over a bufio.Reader.
use mactelnet_proxy.Base.{
  ℕ, ◌-◌, Bool, ◌&&◌, ◌||◌, if◌then◌else◌, ltb, leb, ◌==◌, List, [], ◌∷◌, ◌++◌, Bytes, Result, ok,
  err, length, take,
}

-- `bufio.Reader`: what is buffered, and what later reads of the channel will bring.
pub record Reader : Type 0 where
  pub buffered : Bytes
  pub later : List Bytes

pub data PromptError : Type 0 where
  write_failed read_failed too_long : PromptError

abbrev pub max_len : ℕ
max_len = 256

-- `s[:len(s)-1]`
abbrev pub drop_last : Bytes → Bytes
drop_last s = take (length s - 1) s

-- After '\r', a '\n' that is already buffered is absorbed.
abbrev pub absorb_newline : ℕ → Bytes → Bytes
absorb_newline c [] = []
absorb_newline c (d ∷ buf) = if c == 13 && d == 10 then buf else d ∷ buf

-- One byte: the end of the line, or the edited line.
pub data Edit : Type 0 where
  finish : Edit
  go_on : Bytes → Edit
  refuse : Edit

unfoldable pub edit : ℕ → Bytes → Edit
edit c sb =
    if c == 13 || c == 10
    then finish
    else if c == 0x08 || c == 0x7f
    then go_on (if ltb 0 (length sb) then drop_last sb else sb)
    else if ltb c 0x20
    then go_on sb
    else if leb max_len (length sb)
    then refuse
    else go_on (sb ++ c ∷ [])

pub data Answer : Type 0 where
  password : Bytes → Reader → Answer
  failed : PromptError → Answer

-- The loop over one buffer, and over those that follow.
unfoldable pub read_buffer : Bytes → List Bytes → Bytes → Result Bytes Answer
read_buffer [] later sb = err sb
read_buffer (c ∷ buf) later sb = elim (edit c sb) [
  | finish ↦ ok (password sb (record { buffered = absorb_newline c buf; later = later }))
  | refuse ↦ ok (failed too_long)
  | go_on sb' ↦ read_buffer buf later sb'
]

unfoldable pub read_line : Bytes → List Bytes → Bytes → Answer
read_line buf [] sb = elim (read_buffer buf [] sb) [ ok a ↦ a | err sb' ↦ failed read_failed ]
read_line buf (chunk ∷ later) sb = elim (read_buffer buf (chunk ∷ later) sb) [
  | ok a ↦ a
  | err sb' ↦ read_line chunk later sb'
]

-- `readPasswordPrompt`; whether the prompt could be written is the channel's answer.
unfoldable pub read_password_prompt : Bool → Reader → Answer
read_password_prompt wrote r =
    if wrote then read_line r.buffered r.later [] else failed write_failed
