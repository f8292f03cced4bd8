-- ===== src/Session/OpenExamples.antt =====
-- Runs of Open of src/internal/mactelnet/session.go.
use mactelnet_proxy.Base.{◌≡◌, refl, true, false, [], ◌∷◌, some}
use mactelnet_proxy.Text.Strings.{codes}
use mactelnet_proxy.Frame.MacText.{parse_mac, net_parse_mac, hex_groups, hex_byte, hex_value}
use mactelnet_proxy.Frame.Sockets.{
  NetInterface, Kernel, opened, closed, receiving, resolve_interface, open_sockets, open_sender_for,
  with_sender, open_raw_sender, open_raw_receiver,
}
use mactelnet_proxy.Session.Open.{OpenRequest, World, open_session, on_interface, with_sockets}
use mactelnet_proxy.Session.Examples.{takes_all, schedules}
use mactelnet_proxy.Session.LoginExamples.{constant_hashes, fixed_keys, router_side}

abbrev eth0 : NetInterface
eth0 = record {
  name = codes "eth0";
  index = 2;
  mtu = 1500;
  hardware_addr = 2 ∷ 1 ∷ 2 ∷ 3 ∷ 4 ∷ 5 ∷ [];
  flag_loopback = false;
  flag_point_to_point = false;
}

abbrev request : OpenRequest
request = record {
  iface = codes "eth0";
  mac = codes "4c:5e:0c:01:02:03";
  username = codes "a";
  password = codes "b";
  cols = 80;
  rows = 24;
  vlan_id = 100;
}

abbrev world : Kernel → World
world k = record {
  by_name = λ name. some eth0;
  kernel = k;
  rand = some (190 ∷ 239 ∷ []);
  takes = takes_all;
  schedules = schedules;
  hashes = constant_hashes;
  ecsrp = fixed_keys;
  login = router_side;
}

abbrev willing : Kernel
willing = record { recv_socket = true; recv_bind = true; udp_listen = true; send_socket = true }

-- Where the send socket is refused, the receive socket is closed.
refused_sender_test :
    (open_session (world (record willing { send_socket = false })) request).log
    ≡ opened receiving ∷ closed receiving ∷ []
unfolding open_session parse_mac net_parse_mac hex_groups hex_byte hex_value on_interface
    resolve_interface with_sockets open_sockets open_sender_for with_sender open_raw_sender
    open_raw_receiver
refused_sender_test = refl
