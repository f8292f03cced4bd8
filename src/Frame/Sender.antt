-- ===== src/Frame/Sender.antt =====
-- src/internal/mactelnet/conn.go: rawSender, its IP identification and its count of failures.
use mactelnet_proxy.Base.{ℕ, ◌+◌, ◌%◌, Bool, true, false, if◌then◌else◌, ◌==◌, Bytes, Mac, u16_mod}
use mactelnet_proxy.Frame.Checksum.{htons}
use mactelnet_proxy.Frame.Build.{build_frame, eth_p_ip, eth_p_8021q}

pub record RawSender : Type 0 where
  pub ifindex : ℕ
  pub src_mac : Mac
  pub ip_id : ℕ
  pub vlan_id : ℕ
  pub send_err_count : ℕ

-- `syscall.SockaddrLinklayer`
pub record LinkAddr : Type 0 where
  pub protocol : ℕ
  pub link_ifindex : ℕ
  pub halen : ℕ
  pub addr : Mac

-- What a failed send logs.
pub data Log : Type 0 where
  quiet warn debug : Log

pub record Sent : Type 0 where
  pub sender : RawSender
  pub frame : Bytes
  pub link_addr : LinkAddr
  pub log : Log
  pub succeeded : Bool

abbrev pub outer_eth : ℕ → ℕ
outer_eth vlan_id = if vlan_id == 0 then eth_p_ip else eth_p_8021q

-- `openRawSender`, past the socket call.
abbrev pub new_sender : ℕ → Mac → ℕ → RawSender
new_sender ifindex mac vlan_id = record {
  ifindex = ifindex;
  src_mac = mac;
  ip_id = 0;
  vlan_id = vlan_id;
  send_err_count = 0;
}

-- `rawSender.Send`; whether `Sendto` succeeds is the kernel's answer.
unfoldable pub send : (Bytes → LinkAddr → Bool) → RawSender → Bytes → Mac → Sent
unfolding htons
send sendto r payload dst_mac =
    let r' = record r { ip_id = (r.ip_id + 1) % u16_mod } in
    let pkt = build_frame r'.src_mac dst_mac r'.vlan_id r'.ip_id payload in
    let to : LinkAddr = record {
      protocol = htons (outer_eth r'.vlan_id);
      link_ifindex = r'.ifindex;
      halen = 6;
      addr = dst_mac;
    } in
    if sendto pkt to
    then record { sender = r'; frame = pkt; link_addr = to; log = quiet; succeeded = true }
    else (let n = (r'.send_err_count + 1) % 18_446_744_073_709_551_616 in
        record {
          sender = record r' { send_err_count = n };
          frame = pkt;
          link_addr = to;
          log = if n == 1 then warn else debug;
          succeeded = false;
        })
