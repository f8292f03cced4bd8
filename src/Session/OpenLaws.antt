-- ===== src/Session/OpenLaws.antt =====
-- What Open of src/internal/mactelnet/session.go leaves open, on every way out of it.
use mactelnet_proxy.Base.{◌≡◌, true, false, none, some}
use mactelnet_proxy.Session.State.{Session}
use mactelnet_proxy.Session.Open.{OpenError, Opened}
use mactelnet_proxy.Frame.SocketsLaws.{no_fds, both_fds, replay, Sockets}

-- A session whose socket, sender, pipes and context are released.
pub record IsReleased (s : Session) : Type 0 where
  pub closed_now : s.closed ≡ true
  pub conn_closed : s.conn_open ≡ false
  pub sender_closed : s.sender_open ≡ false
  pub pipes_closed : (s.pipe_w_open ≡ false) × (s.pipe_r_open ≡ false)
  pub ctx_canceled : s.ctx_done ≡ true

-- An open session: both sockets are its own, and the peer has let it in.
pub record IsOpen (s : Session) : Type 0 where
  pub not_closed : s.closed ≡ false
  pub in_terminal_mode : s.terminal_mode ≡ true

-- `Open` returns a session over both its sockets; or an error, with every descriptor that it opened
-- closed, by itself or by the session that it closes.
pub data Left (o : Opened) : Type 0 where
  session_open :
      (s : Session)
      → o.result ≡ none
      → o.session ≡ some s
      → IsOpen s
      → replay o.log no_fds ≡ some both_fds
      → Left o
  nothing_open :
      (e : OpenError)
      → o.result ≡ some e
      → o.session ≡ none
      → replay o.log no_fds ≡ some no_fds
      → Left o
  session_released :
      (e : OpenError) (s : Session)
      → o.result ≡ some e
      → o.session ≡ some s
      → IsReleased s
      → replay o.log no_fds ≡ some both_fds
      → Left o
