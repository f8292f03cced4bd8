-- ===== src/Ssh/ExecExamples.antt =====
-- Runs of the engines and of the interface listing of src/internal/sshserver.
use mactelnet_proxy.Base.{
  ◌+◌, ◌≡◌, refl, arith, true, false, List, [], ◌∷◌, ◌++◌, Bytes, none, some, length, All,
}
use mactelnet_proxy.Text.Strings.{codes, is_space, cut_prefix, trim_space, trim_left, trim_right}
use mactelnet_proxy.Text.StringsLaws.{unlines}
use mactelnet_proxy.Text.Numbers.{pos, itoa, itoa_from}
use mactelnet_proxy.Text.Flags.{read_arg}
use mactelnet_proxy.Ssh.Command.{is_quote}
use mactelnet_proxy.Ssh.CommandRoundTrip.{Spaced, bare, quoted, line, word_bytes}
use mactelnet_proxy.Ssh.Exec.{Config}
use mactelnet_proxy.Ssh.ExecMactelnet.{
  MactelnetWorld, answered, canceled, run_session, exec_mactelnet,
}
use mactelnet_proxy.Ssh.ExecMactelnetLaws.{Outcome, named_request, exec_mactelnet-Outcome}
use mactelnet_proxy.Ssh.Ifaces.{System, IfaceInfo, read_vlan}
use mactelnet_proxy.Ssh.IfaceTable.{widths, start_widths, row_prefix, more_prefix}
use mactelnet_proxy.Ssh.IfaceTableLaws.{Aligned, column, iface_table-Aligned}
use mactelnet_proxy.Ssh.VlanFile.{vid_line, device_line, file_lines, read_vlan_lem}
use mactelnet_proxy.Ssh.Engines.{Surroundings, dispatch_exec}
use mactelnet_proxy.Ssh.EnginesLaws.{dispatch_exec-line}

abbrev cfg : Config
cfg = record {
  listen_addr = codes "0.0.0.0:22";
  host_key_path = [];
  authorized_keys = [];
  iface = [];
  vlan_id = 0;
}

abbrev world : MactelnetWorld
world = record {
  wake = answered;
  prompt_written = true;
  stdin = record { buffered = codes "pw" ++ 13 ∷ []; later = [] };
  open_result = λ req. none;
  win_changes = record { cols = 100; rows = 30 } ∷ [];
  ending = canceled;
}

-- A VLAN device below eth0.
abbrev first_line : Bytes
first_line = vid_line b'v' (codes "100") 100 9 (codes " REORDER_HDR: 1")

abbrev vlan_file : List Bytes
vlan_file =
    file_lines first_line (codes "  total frames" ∷ []) (device_line b'e' (codes "th0"))
      (codes "INGRESS priority mappings: 0:0" ∷ [])

abbrev system : System
system = record {
  sys_net = λ name file. none;
  wireless = λ name. false;
  master_link = λ name. none;
  proc_vlan = λ name. some (unlines vlan_file);
  addrs = λ name. some [];
  flags_text = λ i. [];
  mac_text = λ a. [];
}

abbrev surroundings : Surroundings
surroundings = record {
  cfg = cfg;
  parse_duration = λ s. none;
  mactelnet_world = world;
  mndp_world = record { hears = λ iface window. none; json = λ ns. none };
  system = system;
  interfaces = some [];
  ifaces_json = λ is. none;
}

abbrev spaced : Bytes → Spaced
spaced [] = record { word = quoted b'"' []; space = 32; more = [] }
spaced (r ∷ rs) = record { word = bare r rs; space = 32; more = 32 ∷ [] }

-- `mactelnet -u admin -p "a b" -i eth0 -vlan 100 4c:5e:0c:01:02:03`
abbrev typed : List Spaced
typed =
    spaced (codes "mactelnet")
    ∷ spaced (codes "-u")
    ∷ spaced (codes "admin")
    ∷ spaced (codes "-p")
    ∷ record { word = quoted b'"' (codes "a b"); space = 9; more = [] }
    ∷ spaced (codes "-i")
    ∷ spaced (codes "eth0")
    ∷ spaced (codes "-vlan")
    ∷ spaced (codes "100")
    ∷ []

dispatch_exec-line_example :
    dispatch_exec surroundings 80 24
      (line typed (word_bytes (bare b'4' (codes "c:5e:0c:01:02:03")) ++ []))
    ≡ run_session world (
        named_request
          (codes "admin")
          (codes "a b")
          (codes "eth0")
          100
          (codes "4c:5e:0c:01:02:03")
          80
          24)
unfolding is_space is_quote itoa itoa_from read_arg
dispatch_exec-line_example =
    dispatch_exec-line surroundings [] typed (bare b'4' (codes "c:5e:0c:01:02:03")) (codes "admin")
      (codes "a b") (codes "eth0") (codes "4c:5e:0c:01:02:03") 100 80 24 tt (ground arith)
      (ground arith) refl refl refl refl (omega arith) refl

exec_mactelnet-Outcome_example :
    Outcome world
      (exec_mactelnet (λ s. none) cfg world (codes "-u" ∷ codes "admin" ∷ codes "4c" ∷ []) 80 24)
exec_mactelnet-Outcome_example =
    exec_mactelnet-Outcome (λ s. none) cfg world (codes "-u" ∷ codes "admin" ∷ codes "4c" ∷ []) 80
      24

read_vlan_lem_example : read_vlan system (codes "v100") ≡ (codes "eth0", pos 100)
unfolding is_space cut_prefix trim_space trim_left trim_right itoa itoa_from
read_vlan_lem_example =
    read_vlan_lem system (codes "v100") b'v' (codes "100") 100 9 (codes " REORDER_HDR: 1")
      (codes "  total frames" ∷ []) (codes "INGRESS priority mappings: 0:0" ∷ []) b'e' (codes "th0")
      (ground arith) refl (omega arith) (omega arith) (ground arith) (refl, tt) (ground arith) refl

abbrev info : Bytes → Bytes → IfaceInfo
info name mac = record {
  name = name;
  index = 2;
  mac = mac;
  mtu = 1500;
  flags = codes "up";
  kind = codes "ether";
  parent = [];
  vid = pos 0;
  master = [];
  oper = codes "up";
  ipv4 = [];
  ipv6 = [];
}

abbrev infos : List IfaceInfo
infos = info (codes "lo") [] ∷ info (codes "eth0") (codes "4c:5e:0c:01:02:03") ∷ []

iface_table-Aligned_example :
    let w = widths infos start_widths in
    All (Aligned w) infos
    × (length (row_prefix w (codes "NAME") (codes "IDX") (codes "MAC") (codes "MTU")) ≡ column w)
    × (length (more_prefix w) ≡ column w + 3)
iface_table-Aligned_example = iface_table-Aligned infos (omega arith, (omega arith, tt))
