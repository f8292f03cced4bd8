-- ===== src/Frame/Sockets.antt =====
-- src/internal/mactelnet/conn.go: the choice of the interface, and the opening and closing of a session's
-- two sockets. What the kernel answers to each call is given.
use mactelnet_proxy.Base.{
  ℕ, Bool, true, false, not, if◌then◌else◌, ◌==◌, List, [], ◌∷◌, ◌++◌, Bytes, mac_at, Option, none,
  some, Result, ok, err, length,
}
use mactelnet_proxy.Text.Strings.{is_empty}
use mactelnet_proxy.Frame.Sender.{RawSender, new_sender}
use mactelnet_proxy.Frame.Receive.{RawReceiver}

-- `net.Interface`, as far as the code reads it.
pub record NetInterface : Type 0 where
  pub name : Bytes
  pub index : ℕ
  pub mtu : ℕ
  pub hardware_addr : Bytes
  pub flag_loopback : Bool
  pub flag_point_to_point : Bool

pub data SocketError : Type 0 where
  name_required no_such_interface no_hardware_addr : SocketError
  packet_socket bind_failed udp_failed : SocketError

-- `resolveInterface`, over `net.InterfaceByName`.
unfoldable pub resolve_interface :
    (Bytes → Option NetInterface) → Bytes → Result SocketError NetInterface
resolve_interface by_name name = if is_empty name then err name_required else elim (by_name name) [
  | none ↦ err no_such_interface
  | some iface ↦ if length iface.hardware_addr == 6 then ok iface else err no_hardware_addr
]

-- The kernel's answers: true where the call succeeds.
pub record Kernel : Type 0 where
  pub recv_socket : Bool
  pub recv_bind : Bool
  pub udp_listen : Bool
  pub send_socket : Bool

pub data Side : Type 0 where
  receiving sending : Side

-- What happens to file descriptors.
pub data SocketEvent : Type 0 where
  opened closed : Side → SocketEvent

-- The two implementations of `rxConn`.
pub data RxConn : Type 0 where
  udp_conn : RxConn
  raw_conn : RawReceiver → RxConn

abbrev pub Opening {ℓ} : Type ℓ → Type ℓ
Opening A = Result SocketError A × List SocketEvent

-- `openRecv`
unfoldable pub open_recv : Kernel → Opening RxConn
open_recv k = if k.udp_listen then (ok udp_conn, opened receiving ∷ []) else (err udp_failed, [])

-- `openRawReceiver`; the address has six bytes.
unfoldable pub open_raw_receiver : Kernel → NetInterface → ℕ → Opening RxConn
open_raw_receiver k iface vlan_id =
    if not k.recv_socket
    then (err packet_socket, [])
    else if not k.recv_bind
    then (err bind_failed, opened receiving ∷ closed receiving ∷ [])
    else (
      ok (
          raw_conn
            (record { vlan_id = vlan_id; own_mac = mac_at iface.hardware_addr 0; closed = false })),
      opened receiving ∷ [],
    )

-- `openRawSender`
unfoldable pub open_raw_sender : Kernel → NetInterface → ℕ → Opening RawSender
open_raw_sender k iface vlan_id =
    if k.send_socket
    then (ok (new_sender iface.index (mac_at iface.hardware_addr 0) vlan_id), opened sending ∷ [])
    else (err packet_socket, [])

-- `if err != nil { recv.Close() … }`
unfoldable pub with_sender :
    RxConn → List SocketEvent → Opening RawSender → Opening (RxConn × RawSender)
with_sender recv log (ok sender, more) = (ok (recv, sender), log ++ more)
with_sender recv log (err e, more) = (err e, log ++ (more ++ closed receiving ∷ []))

-- From the receive socket on.
unfoldable pub open_sender_for :
    Kernel → NetInterface → ℕ → Opening RxConn → Opening (RxConn × RawSender)
open_sender_for k iface vlan_id (err e, log) = (err e, log)
open_sender_for k iface vlan_id (ok recv, log) =
    with_sender recv log (open_raw_sender k iface vlan_id)

-- `openSockets`
unfoldable pub open_sockets : Kernel → NetInterface → ℕ → Opening (RxConn × RawSender)
open_sockets k iface vlan_id =
    open_sender_for k iface vlan_id
      (if vlan_id == 0 then open_recv k else open_raw_receiver k iface vlan_id)

-- `rawReceiver.Close`: the receiver, and whether the descriptor is closed by this call.
unfoldable pub close_receiver : RawReceiver → RawReceiver × Bool
close_receiver r = (record r { closed = true }, not r.closed)
