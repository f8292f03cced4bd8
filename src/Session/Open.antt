-- ===== src/Session/Open.antt =====
-- src/internal/mactelnet/session.go: Open, from the texts of its arguments to a session that is logged in.
-- The file descriptors that it opens and closes itself are logged; `close` releases those of a session.
use mactelnet_proxy.Base.{
  ℕ, ◌++◌, List, [], ◌∷◌, Bytes, be16_at, Mac, mac_at, Option, none, some, ok, err,
}
use mactelnet_proxy.Auth.Messages.{Hashes}
use mactelnet_proxy.Seq.Schedule.{Schedules}
use mactelnet_proxy.Frame.MacText.{MacError, parse_mac}
use mactelnet_proxy.Frame.Sender.{RawSender}
use mactelnet_proxy.Frame.Sockets.{
  NetInterface, SocketError, Kernel, SocketEvent, closed, receiving, sending, RxConn, Opening,
  resolve_interface, open_sockets,
}
use mactelnet_proxy.Session.State.{Session, SessionError, Takes, new_session, close}
use mactelnet_proxy.Session.Login.{Ecsrp, LoginWorld, handshake}

-- The arguments of `Open`.
pub record OpenRequest : Type 0 where
  pub iface : Bytes
  pub mac : Bytes
  pub username : Bytes
  pub password : Bytes
  pub cols : ℕ
  pub rows : ℕ
  pub vlan_id : ℕ

pub data OpenError : Type 0 where
  mac_error : MacError → OpenError
  socket_error : SocketError → OpenError
  rand_failed : OpenError
  login_failed : SessionError → OpenError

-- What is left when `Open` returns: the session, if one was built, its sockets, and the descriptors that
-- were opened and closed outside it.
pub record Opened : Type 0 where
  pub result : Option OpenError
  pub session : Option Session
  pub conn : Option RxConn
  pub sender : Option RawSender
  pub log : List SocketEvent

abbrev pub refused : OpenError → List SocketEvent → Opened
refused e log = record { result = some e; session = none; conn = none; sender = none; log = log }

-- The outside world of a login: the system's interfaces and sockets, randomness, the frames that are
-- taken, and what the peer does.
pub record World : Type 1 where
  pub by_name : Bytes → Option NetInterface
  pub kernel : Kernel
  pub rand : Option Bytes
  pub takes : Takes
  pub schedules : Schedules
  pub hashes : Hashes
  pub ecsrp : Ecsrp
  pub login : LoginWorld

module _ (w : World) where
  -- From the handshake's end on.
  unfoldable pub after_handshake :
      RxConn → RawSender → List SocketEvent → Session × Option SessionError → Opened
  after_handshake conn sender log (s, none) = record {
    result = none;
    session = some s;
    conn = some conn;
    sender = some sender;
    log = log;
  }
  after_handshake conn sender log (s, some e) = record {
    result = some (login_failed e);
    session = some (close w.takes s);
    conn = some conn;
    sender = some sender;
    log = log;
  }

  -- From the session key's randomness on.
  unfoldable pub build :
      OpenRequest → NetInterface → Mac → List SocketEvent → RxConn × RawSender → Opened
  build req iface dst log (conn, sender) = elim w.rand [
    | none ↦ refused rand_failed (log ++ closed receiving ∷ closed sending ∷ [])
    | some sk ↦ after_handshake conn sender log (
        handshake w.hashes w.ecsrp w.takes w.schedules w.login req.username req.password req.cols
          req.rows (new_session (mac_at iface.hardware_addr 0) dst (be16_at sk 0)))
  ]

  -- From the sockets on.
  unfoldable pub with_sockets :
      OpenRequest → NetInterface → Mac → Opening (RxConn × RawSender) → Opened
  with_sockets req iface dst (err e, log) = refused (socket_error e) log
  with_sockets req iface dst (ok sockets, log) = build req iface dst log sockets

  -- From the interface on.
  unfoldable pub on_interface : OpenRequest → Mac → Opened
  on_interface req dst = elim (resolve_interface w.by_name req.iface) [
    | err e ↦ refused (socket_error e) []
    | ok iface ↦ with_sockets req iface dst (open_sockets w.kernel iface req.vlan_id)
  ]

  -- `Open`
  unfoldable pub open_session : OpenRequest → Opened
  open_session req = elim (parse_mac req.mac) [
    | err e ↦ refused (mac_error e) []
    | ok dst ↦ on_interface req dst
  ]
