-- ===== src/Ssh/Engines.antt =====
-- src/internal/sshserver/exec.go: dispatchExec with its three engines.
use mactelnet_proxy.Base.{ℕ, List, Bytes, Option}
use mactelnet_proxy.Seq.Schedule.{Duration}
use mactelnet_proxy.Frame.Sockets.{NetInterface}
use mactelnet_proxy.Ssh.Command
use mactelnet_proxy.Ssh.Command.{Dispatch, run_mactelnet, run_mndp, run_ifaces, dispatch}
use mactelnet_proxy.Ssh.Exec
use mactelnet_proxy.Ssh.Exec.{Config, Exec, complain}
use mactelnet_proxy.Ssh.ExecMactelnet.{MactelnetWorld, exec_mactelnet}
use mactelnet_proxy.Ssh.ExecMndp.{MndpWorld, exec_mndp}
use mactelnet_proxy.Ssh.Ifaces.{System, IfaceInfo}
use mactelnet_proxy.Ssh.IfaceTable.{exec_ifaces}

-- What the engines meet.
pub record Surroundings : Type 0 where
  pub cfg : Config
  pub parse_duration : Bytes → Option Duration
  pub mactelnet_world : MactelnetWorld
  pub mndp_world : MndpWorld
  pub system : System
  pub interfaces : Option (List NetInterface)
  pub ifaces_json : List IfaceInfo → Option Bytes

unfoldable pub run_dispatch : Surroundings → ℕ → ℕ → Dispatch → Exec
run_dispatch w cols rows (run_mactelnet args) =
    exec_mactelnet w.parse_duration w.cfg w.mactelnet_world args cols rows
run_dispatch w cols rows (run_mndp args) = exec_mndp w.parse_duration w.cfg w.mndp_world args
run_dispatch w cols rows (run_ifaces args) =
    exec_ifaces w.parse_duration w.system w.interfaces w.ifaces_json args
run_dispatch w cols rows Command.bad_command = complain 2 Exec.bad_command
run_dispatch w cols rows Command.empty_command = complain 2 Exec.empty_command
run_dispatch w cols rows (Command.unknown_command name) = complain 127 (Exec.unknown_command name)

-- `dispatchExec`
unfoldable pub dispatch_exec : Surroundings → ℕ → ℕ → Bytes → Exec
dispatch_exec w cols rows cmdline = run_dispatch w cols rows (dispatch cmdline)
