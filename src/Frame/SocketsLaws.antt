-- ===== src/Frame/SocketsLaws.antt =====
-- The descriptors that openSockets of src/internal/mactelnet/conn.go leaves open.
use mactelnet_proxy.Base.{
  ℕ, ◌≡◌, refl, inl, inr, Bool, true, false, if◌then◌else◌, ◌==◌, List, [], ◌∷◌, Option, none, some,
  ok, err, Bool-cases,
}
use mactelnet_proxy.Frame.Sender.{RawSender}
use mactelnet_proxy.Frame.Sockets.{
  NetInterface, SocketError, Kernel, receiving, sending, SocketEvent, opened, closed, RxConn,
  Opening, open_recv, open_raw_receiver, open_raw_sender, with_sender, open_sender_for,
  open_sockets,
}

-- The descriptors that a log leaves open; to open one that is open or to close one that is not is none.
pub record Fds : Type 0 where
  pub recv : Bool
  pub send : Bool

abbrev pub no_fds : Fds
no_fds = record { recv = false; send = false }

abbrev pub both_fds : Fds
both_fds = record { recv = true; send = true }

unfoldable pub replay : List SocketEvent → Fds → Option Fds
replay [] f = some f
replay (opened receiving ∷ es) f =
    let rest = replay es (record f { recv = true }) in if f.recv then none else rest
replay (closed receiving ∷ es) f =
    let rest = replay es (record f { recv = false }) in if f.recv then rest else none
replay (opened sending ∷ es) f =
    let rest = replay es (record f { send = true }) in if f.send then none else rest
replay (closed sending ∷ es) f =
    let rest = replay es (record f { send = false }) in if f.send then rest else none

-- What opening the sockets yields: both, or none.
pub data Sockets (r : Opening (RxConn × RawSender)) : Type 0 where
  both_open :
      (pair : RxConn × RawSender)
      → r ≡ (ok pair, opened receiving ∷ opened sending ∷ [])
      → Sockets r
  none_open :
      (e : SocketError) (log : List SocketEvent)
      → r ≡ (err e, log)
      → replay log no_fds ≡ some no_fds
      → Sockets r

-- The receive socket alone.
data Receiving (r : Opening RxConn) : Type 0 where
  recv_open : (recv : RxConn) → r ≡ (ok recv, opened receiving ∷ []) → Receiving r
  recv_failed :
      (e : SocketError) (log : List SocketEvent)
      → r ≡ (err e, log)
      → replay log no_fds ≡ some no_fds
      → Receiving r

open_recv-Receiving : (k : Kernel) → Receiving (open_recv k)
unfolding open_recv replay
open_recv-Receiving k = elim (Bool-cases k.udp_listen) [
  | inr e ↦ rw (e, open_recv) (recv_failed _ _ refl refl)
  | inl e ↦ rw (e, open_recv) (recv_open _ refl)
]

open_raw_receiver-Receiving :
    (k : Kernel) (iface : NetInterface) (vlan_id : ℕ)
    → Receiving (open_raw_receiver k iface vlan_id)
unfolding open_raw_receiver replay
open_raw_receiver-Receiving k iface vlan_id = elim (Bool-cases k.recv_socket) [
  | inr e ↦ rw (e, open_raw_receiver) (recv_failed _ _ refl refl)
  | inl e ↦ elim (Bool-cases k.recv_bind) [
    | inr f ↦ rw (e, open_raw_receiver) (rw f (recv_failed _ _ refl refl))
    | inl f ↦ rw (e, open_raw_receiver) (rw f (recv_open _ refl))
  ]
]

receiver-Receiving :
    (k : Kernel) (iface : NetInterface) (vlan_id : ℕ)
    → Receiving (if vlan_id == 0 then open_recv k else open_raw_receiver k iface vlan_id)
receiver-Receiving k iface vlan_id = elim (Bool-cases (vlan_id == 0)) [
  | inl e ↦ rw e (open_recv-Receiving k)
  | inr e ↦ rw e (open_raw_receiver-Receiving k iface vlan_id)
]

open_sender_for-Sockets :
    (k : Kernel) (iface : NetInterface) (vlan_id : ℕ) (r : Opening RxConn)
    → Receiving r
    → Sockets (open_sender_for k iface vlan_id r)
unfolding open_sender_for with_sender open_raw_sender replay
open_sender_for-Sockets k iface vlan_id r (recv_failed e log h closed_all) =
    rw h (none_open e log refl closed_all)
open_sender_for-Sockets k iface vlan_id r (recv_open recv h) =
    rw h (elim (Bool-cases k.send_socket) [
      | inl e ↦ rw (e, open_sender_for, open_raw_sender) (both_open _ refl)
      | inr e ↦ rw (e, open_sender_for, open_raw_sender) (none_open _ _ refl refl)
    ])

pub open_sockets-Sockets :
    (k : Kernel) (iface : NetInterface) (vlan_id : ℕ) → Sockets (open_sockets k iface vlan_id)
unfolding open_sockets
open_sockets-Sockets k iface vlan_id =
    open_sender_for-Sockets k iface vlan_id _ (receiver-Receiving k iface vlan_id)
