-- ===== src/Ssh/LifecycleExamples.antt =====
-- A server of src/internal/sshserver at work.
use mactelnet_proxy.Base.{true, false, [], ◌∷◌, some, none}
use mactelnet_proxy.Text.Strings.{codes}
use mactelnet_proxy.Ssh.Channel
use mactelnet_proxy.Ssh.Channel.{Unmarshal, open_chan, handle_req, exec_req}
use mactelnet_proxy.Ssh.Lifecycle.{Running, Conn}
use mactelnet_proxy.Ssh.ServerExamples.{disk, plain_keys, host_keys, server}

abbrev plain : Unmarshal
plain = record { pty_req_msg = λ b. none; win_change_msg = λ b. none; exec_msg = λ b. some b }

abbrev peer : Conn disk plain_keys host_keys plain
peer = record { key = codes "new"; channels = [] }

-- The state once a key was added, reloaded and used, and a command was asked for.
abbrev busy : Running disk plain_keys host_keys plain
busy = record {
  server = record server { keys = codes "new" ∷ [] };
  files = some (codes "new");
  handshaking = 0;
  conns =
      record peer {
        channels =
            handle_req plain (record { req_type = exec_req; payload = codes "ifaces" }) open_chan
            ∷ [];
      }
      ∷ [];
  cancelled = false;
  listening = true;
}
