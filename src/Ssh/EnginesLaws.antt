-- ===== src/Ssh/EnginesLaws.antt =====
-- From the text of an exec request to the session that dispatchExec of src/internal/sshserver/exec.go opens.
use mactelnet_proxy.Base.{ℕ, ◌≤◌, ◌≡◌, refl, ◌∙◌, ap, false, List, [], ◌∷◌, ◌++◌, All, Bytes}
use mactelnet_proxy.Text.Strings.{codes, is_empty}
use mactelnet_proxy.Text.Flags.{read_arg, operand}
use mactelnet_proxy.Ssh.Command.{run_mactelnet, choose, dispatch}
use mactelnet_proxy.Ssh.CommandRoundTrip.{
  Word, text, word_bytes, IsWord, IsSpace, Spaced, IsSpaced, line, texts, split_cmd-line,
}
use mactelnet_proxy.Ssh.ExecMactelnet.{run_session}
use mactelnet_proxy.Ssh.ExecMactelnetLaws.{full_args, named_request, exec_mactelnet_named}
use mactelnet_proxy.Ssh.Engines.{Surroundings, run_dispatch, dispatch_exec}

dispatch-line :
    (lead : Bytes) (ws : List Spaced) (w : Word) (args : List Bytes)
    → All IsSpace lead
    → All IsSpaced ws
    → IsWord w
    → texts ws ++ text w ∷ [] ≡ codes "mactelnet" ∷ args
    → dispatch (lead ++ line ws (word_bytes w ++ [])) ≡ run_mactelnet args
unfolding dispatch choose
dispatch-line lead ws w args l h k e = rw (split_cmd-line lead ws w l h k, dispatch) (rw e refl)

-- A command whose words, quoted or not and however spaced, are "mactelnet" and the arguments -u, -p, -i and
-- -vlan with their values and an address has its session opened for exactly these values.
pub dispatch_exec-line :
    (w : Surroundings) (lead : Bytes) (ws : List Spaced) (last : Word) (user pass iface mac : Bytes)
    (vlan_id cols rows : ℕ)
    → All IsSpace lead
    → All IsSpaced ws
    → IsWord last
    → texts ws ++ text last ∷ [] ≡ codes "mactelnet" ∷ full_args user pass iface vlan_id mac
    → is_empty user ≡ false
    → is_empty pass ≡ false
    → is_empty iface ≡ false
    → vlan_id ≤ 4094
    → read_arg mac ≡ operand
    → dispatch_exec w cols rows (lead ++ line ws (word_bytes last ++ []))
      ≡ run_session w.mactelnet_world (named_request user pass iface vlan_id mac cols rows)
unfolding dispatch_exec run_dispatch
dispatch_exec-line w lead ws last user pass iface mac vlan_id cols rows l h k e u p i v m =
    ap (run_dispatch w cols rows) (dispatch-line lead ws last _ l h k e)
    ∙ exec_mactelnet_named w.parse_duration w.cfg w.mactelnet_world user pass iface mac vlan_id cols
        rows u p i v m
