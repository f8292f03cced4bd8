-- ===== src/Session/Loop.antt =====
-- src/internal/mactelnet/loop.go: rxLoop over a raw socket, as rounds over what the socket returns.
use mactelnet_proxy.Base.{ℕ, zero, suc, List, if◌then◌else◌, Option, none, some}
use mactelnet_proxy.Wire.Header.{max_packet}
use mactelnet_proxy.Frame.Receive.{
  RawReceiver, Recv, ReadResult, data_read, deadline_exceeded, net_closed, read_error, read,
}
use mactelnet_proxy.Session.State.{Session, Takes, reading, delivering, stopped}
use mactelnet_proxy.Session.Inbound.{rx_no_datagram, ctx_was_done, conn_closed, other_error}
use mactelnet_proxy.Session.Stream.{receive, and_then}

-- `case <-s.ctx.Done(): return`
abbrev pub unless_done : Session → Option Session → Option Session
unless_done s k = if s.ctx_done then some (rx_no_datagram ctx_was_done s) else k

-- The next round, unless the datagram ended the loop.
abbrev pub go_on : (Session → Option Session) → Session → Option Session
go_on next s = elim s.rx [ reading ↦ next s | delivering rs ↦ next s | stopped ↦ some s ]

-- A round from its read on. A read that waits leaves the session as it is.
abbrev pub after_read :
    Takes
    → ℕ
    → (List Recv → Session → Option Session)
    → Session
    → Option (ReadResult × List Recv)
    → Option Session
after_read takes errno next s none = some s
after_read takes errno next s (some (data_read buf, es)) =
    and_then (receive takes buf s) (go_on (next es))
after_read takes errno next s (some (deadline_exceeded, es)) = next es s
after_read takes errno next s (some (net_closed, es)) = some (rx_no_datagram conn_closed s)
after_read takes errno next s (some (read_error, es)) = some (rx_no_datagram (other_error errno) s)

-- `rxLoop`, with fuel for its rounds: each but the last takes something from the socket. `none` is a
-- loop that waits for room in controlCh, and `errno` the error of a read that fails.
unfoldable pub rx_loop : Takes → RawReceiver → ℕ → ℕ → List Recv → Session → Option Session
rx_loop takes r errno zero es s = some s
rx_loop takes r errno (suc n) es s =
    unless_done s (after_read takes errno (rx_loop takes r errno n) s (read r max_packet es))
