-- ===== src/Ssh/Examples.antt =====
-- Runs of the front end of src/internal/sshserver.
use mactelnet_proxy.Base.{
  ◌≡◌, ◌↔◌, refl, arith, List, [], ◌∷◌, ◌++◌, Bytes, none, some, ok, err, true,
}
use mactelnet_proxy.Ssh.Command.{is_quote, split_cmd, unclosed_quote}
use mactelnet_proxy.Text.Strings.{is_space}
use mactelnet_proxy.Ssh.CommandRoundTrip.{bare, quoted, Spaced, split_cmd-line, split_cmd_unclosed}
use mactelnet_proxy.Ssh.Channel.{
  Chan, Unmarshal, open_chan, exec_req, handle_req, handle_req_of, on_exec, request, start, next,
}
use mactelnet_proxy.Ssh.ChannelLaws.{Inv, Reach-Inv, second_exec}
use mactelnet_proxy.Ssh.Prompt.{
  Reader, read_password_prompt, password, edit, read_buffer, read_line,
}
use mactelnet_proxy.Ssh.PromptLaws.{
  IsPassword, line_of, read_password_prompt-IsPassword, read_password_prompt_typed,
}
use mactelnet_proxy.Ssh.Keys.{SshKeys, keys_of_lines, key_match}
use mactelnet_proxy.Ssh.KeysLaws.{Some, key_match-keys_of_lines}

-- `mndp "a b" `, with a quoted space.
abbrev words : List Spaced
words = record { word = bare b'm' (b'n' ∷ []); space = 32; more = 9 ∷ [] } ∷ []

split_cmd-line_test :
    split_cmd (32 ∷ b'm' ∷ b'n' ∷ 32 ∷ 9 ∷ b'"' ∷ b'a' ∷ 32 ∷ b'b' ∷ b'"' ∷ [])
    ≡ ok ((b'm' ∷ b'n' ∷ []) ∷ (b'a' ∷ 32 ∷ b'b' ∷ []) ∷ [])
unfolding is_space is_quote
split_cmd-line_test =
    split_cmd-line (32 ∷ []) words (quoted b'"' (b'a' ∷ 32 ∷ b'b' ∷ [])) (refl, tt) (ground arith)
      (ground arith)

split_cmd_unclosed_test : split_cmd (b'm' ∷ b'n' ∷ 32 ∷ 9 ∷ b'"' ∷ b'a' ∷ []) ≡ err unclosed_quote
unfolding is_space is_quote
split_cmd_unclosed_test =
    split_cmd_unclosed [] words b'"' (b'a' ∷ []) tt (ground arith) refl (ground arith)

abbrev parsers : Unmarshal
parsers = record { pty_req_msg = λ p. none; win_change_msg = λ p. none; exec_msg = λ p. some p }

abbrev started_chan : Chan
started_chan = handle_req parsers (record { req_type = exec_req; payload = 109 ∷ [] }) open_chan

Reach-Inv_example : Inv started_chan
Reach-Inv_example =
    Reach-Inv {u = parsers} {c = started_chan}
      (next start (request (record { req_type = exec_req; payload = 109 ∷ [] }) refl))

second_exec_test :
    handle_req parsers (record { req_type = exec_req; payload = 110 ∷ [] }) started_chan
    ≡ record started_chan { replies = started_chan.replies ++ true ∷ [] }
unfolding handle_req handle_req_of on_exec
second_exec_test = second_exec parsers (110 ∷ []) (110 ∷ []) started_chan refl refl

abbrev typed : Reader
typed = record { buffered = []; later = (104 ∷ 0x7f ∷ []) ∷ (105 ∷ 10 ∷ []) ∷ [] }

read_password_prompt-IsPassword_example : IsPassword (105 ∷ [])
unfolding read_password_prompt read_line read_buffer edit
read_password_prompt-IsPassword_example =
    read_password_prompt-IsPassword true typed (record { buffered = []; later = [] }) (105 ∷ [])
      refl

read_password_prompt_typed_test :
    read_password_prompt true (line_of (104 ∷ 105 ∷ []) (13 ∷ 10 ∷ 120 ∷ []) [])
    ≡ password (104 ∷ 105 ∷ []) (record { buffered = 120 ∷ []; later = [] })
read_password_prompt_typed_test =
    read_password_prompt_typed (104 ∷ 105 ∷ []) (10 ∷ 120 ∷ []) [] (ground arith)

-- Keys that are their own lines.
abbrev plain_keys : SshKeys
plain_keys = record { PublicKey = Bytes; parse_key = λ line. some line; marshal = λ k. k }

key_match-keys_of_lines_test :
    (key_match plain_keys (120 ∷ []) (keys_of_lines plain_keys ((35 ∷ []) ∷ (120 ∷ []) ∷ []))
      ≡ true)
    ↔ Some plain_keys (120 ∷ []) ((35 ∷ []) ∷ (120 ∷ []) ∷ [])
key_match-keys_of_lines_test =
    key_match-keys_of_lines plain_keys (120 ∷ []) ((35 ∷ []) ∷ (120 ∷ []) ∷ [])
