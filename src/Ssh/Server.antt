-- ===== src/Ssh/Server.antt =====
-- src/internal/sshserver/server.go: New, the reloading of keys, the authentication, the accept loop and the
-- channels of a connection. The SSH protocol itself is x/crypto/ssh's.
use mactelnet_proxy.Base.{
  Bool, true, false, if◌then◌else◌, List, [], ◌∷◌, ◌++◌, Option, none, some, Result, ok, err,
}
use mactelnet_proxy.Ssh.Keys.{SshKeys, key_match}
use mactelnet_proxy.Ssh.Exec.{Config}
use mactelnet_proxy.Ssh.Files.{
  FileSys, FileError, HostKeys, load_authorized_keys, load_or_create_host_key,
}

-- What the accept loop gets: a connection, `net.ErrClosed`, or another error.
pub data Accept (Conn : Type 0) : Type 0 where
  connected : Conn → Accept Conn
  listener_closed accept_error : Accept Conn

-- `Serve`: whether it can listen, whether it returned, and the connections that were handed to a goroutine.
pub data Serving (Conn : Type 0) : Type 0 where
  listen_failed : Serving Conn
  running returned : List Conn → Serving Conn

module _ {Conn : Type 0} where
  unfoldable pub accept_loop : List Conn → List (Accept Conn) → Serving Conn
  accept_loop conns [] = running conns
  accept_loop conns (connected c ∷ as') = accept_loop (conns ++ c ∷ []) as'
  accept_loop conns (listener_closed ∷ as') = returned conns
  accept_loop conns (accept_error ∷ as') = accept_loop conns as'

  -- `Serve`
  unfoldable pub serve : Bool → List (Accept Conn) → Serving Conn
  serve listens accepts = if listens then accept_loop [] accepts else listen_failed

-- A channel that a client opens: its type, and whether it can be accepted.
pub data NewChannel : Type 0 where
  session_channel : Bool → NewChannel
  other_channel : NewChannel

pub data ConnEvent : Type 0 where
  deadline_set deadline_cleared handshake_failed : ConnEvent
  rejected accept_failed session_started : ConnEvent
  conn_closed raw_closed : ConnEvent

unfoldable pub handle_channels : List NewChannel → List ConnEvent
handle_channels [] = []
handle_channels (other_channel ∷ cs) = rejected ∷ handle_channels cs
handle_channels (session_channel false ∷ cs) = accept_failed ∷ handle_channels cs
handle_channels (session_channel true ∷ cs) = session_started ∷ handle_channels cs

-- `handleConn`: the channels are those that the client opens until it is gone, if its handshake succeeds.
unfoldable pub handle_conn : Option (List NewChannel) → List ConnEvent
handle_conn none = deadline_set ∷ handshake_failed ∷ raw_closed ∷ []
handle_conn (some cs) =
    deadline_set ∷ deadline_cleared ∷ (handle_channels cs ++ conn_closed ∷ raw_closed ∷ [])

pub data ServerError : Type 0 where
  host_key_error authorized_keys_error : FileError → ServerError

module _ (fs : FileSys) (ssh : SshKeys) (hk : HostKeys) where
  -- `Server`
  pub record Server : Type 0 where
    pub cfg : Config
    pub signer : hk.Signer
    pub keys : List ssh.PublicKey

  -- `reload`, from the load on: the keys change only where the file was read.
  unfoldable pub reloaded :
      Server
      → Result FileError (List ssh.PublicKey) × fs.State
      → (Server × Option FileError) × fs.State
  reloaded server (err e, s) = ((server, some e), s)
  reloaded server (ok keys, s) = ((record server { keys = keys }, none), s)

  -- `reload`
  unfoldable pub reload : Server → fs.State → (Server × Option FileError) × fs.State
  reload server s = reloaded server (load_authorized_keys fs ssh s server.cfg.authorized_keys)

  abbrev loaded_server : Server × Option FileError → Result ServerError Server
  loaded_server (server, none) = ok server
  loaded_server (server, some e) = err (authorized_keys_error e)

  -- `New`
  unfoldable pub new : Config → fs.State → Result ServerError Server × fs.State
  new cfg s =
      let (made, s') = load_or_create_host_key fs hk s cfg.host_key_path in
      elim made [
        | err e ↦ (err (host_key_error e), s')
        | ok signer ↦
            let (first, s'') = reload (record { cfg = cfg; signer = signer; keys = [] }) s' in
            (loaded_server first, s'')
      ]

  -- `authPublicKey`: whether the key may log in.
  unfoldable pub auth_public_key : Server → ssh.PublicKey → Bool
  auth_public_key server key = key_match ssh key server.keys

  -- What happens to a running server: the files change, or a SIGHUP has the keys reloaded.
  pub data Happening : Type 0 where
    files_change : fs.State → Happening
    hangup : Happening

  -- The goroutine of `runServe` that waits for SIGHUP; a failed reload is only logged.
  unfoldable pub run_happenings : List Happening → Server → fs.State → Server × fs.State
  run_happenings [] server s = (server, s)
  run_happenings (files_change s' ∷ hs) server s = run_happenings hs server s'
  run_happenings (hangup ∷ hs) server s =
      let (after, s') = reload server s in run_happenings hs after.0 s'
