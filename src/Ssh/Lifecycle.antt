-- ===== src/Ssh/Lifecycle.antt =====
-- src/internal/sshserver/server.go while it serves: the accept loop, the connections with their channels, the
-- reloading on SIGHUP and the shutdown, whose goroutines take steps in any order.
use mactelnet_proxy.Base.{ℕ, suc, ◌≡◌, Bool, true, false, List, [], ◌∷◌, ◌++◌}
use mactelnet_proxy.Ssh.Keys.{SshKeys}
use mactelnet_proxy.Ssh.Files.{FileSys, HostKeys}
use mactelnet_proxy.Ssh.Channel
use mactelnet_proxy.Ssh.Channel.{Unmarshal, Chan, open_chan}
use mactelnet_proxy.Ssh.Server.{Server, reload, auth_public_key}

module _ (fs : FileSys) (ssh : SshKeys) (hk : HostKeys) (u : Unmarshal) where
  -- A connection behind its handshake: the key that let it in, and its session channels.
  pub record Conn : Type 0 where
    pub key : ssh.PublicKey
    pub channels : List Chan

  -- `handshaking` counts the connections whose `handleConn` is inside `ssh.NewServerConn`.
  pub record Running : Type 0 where
    pub server : Server fs ssh hk
    pub files : fs.State
    pub handshaking : ℕ
    pub conns : List Conn
    pub cancelled : Bool
    pub listening : Bool

  -- `listener.Accept` returned a connection.
  unfoldable pub accept : Running → Running
  accept r = record r { handshaking = suc r.handshaking }

  -- `case <-hupCh:`
  unfoldable pub on_hangup : Running → Running
  on_hangup r =
      let (after, s) = reload fs ssh hk r.server r.files in record r { server = after.0; files = s }

  -- `ssh.NewServerConn` returned a connection.
  unfoldable pub log_in : ℕ → ssh.PublicKey → Running → Running
  log_in n key r = record r {
    handshaking = n;
    conns = r.conns ++ record { key = key; channels = [] } ∷ [];
  }

  -- `go s.handleSession(ctx, ch, chReqs)`
  abbrev pub open_session_channel : Conn → Conn
  open_session_channel c = record c { channels = c.channels ++ open_chan ∷ [] }

  -- x/crypto/ssh lets a client in only with a key for which its PublicKeyCallback, authPublicKey, returned
  -- no error; the step is that call. Any process may write the files.
  pub data Step (r : Running) : Running → Type 0 where
    writes : (s : fs.State) → Step r (record r { files = s })
    hangs_up : r.cancelled ≡ false → Step r (on_hangup r)
    accepts : r.listening ≡ true → Step r (accept r)
    fails : (n : ℕ) → r.handshaking ≡ suc n → Step r (record r { handshaking = n })
    logs_in :
        (n : ℕ) (key : ssh.PublicKey)
        → r.handshaking ≡ suc n
        → auth_public_key fs ssh hk r.server key ≡ true
        → Step r (log_in n key r)
    opens :
        (before later : List Conn) (c : Conn)
        → r.conns ≡ before ++ c ∷ later
        → Step r (record r { conns = before ++ open_session_channel c ∷ later })
    works :
        (before later : List Conn) (c : Conn) (front back : List Chan) (ch ch' : Chan)
        → r.conns ≡ before ++ c ∷ later
        → c.channels ≡ front ++ ch ∷ back
        → Channel.Step u ch ch'
        → Step r
            (record r { conns = before ++ record c { channels = front ++ ch' ∷ back } ∷ later })
    goes :
        (before later : List Conn) (c : Conn)
        → r.conns ≡ before ++ c ∷ later
        → Step r (record r { conns = before ++ later })
    is_cancelled : Step r (record r { cancelled = true })
    stops_listening : r.cancelled ≡ true → Step r (record r { listening = false })

  -- `Serve`, when it listens.
  abbrev pub serving : Server fs ssh hk → fs.State → Running
  serving server s = record {
    server = server;
    files = s;
    handshaking = 0;
    conns = [];
    cancelled = false;
    listening = true;
  }

  pub data Reach (server : Server fs ssh hk) (s : fs.State) : Running → Type 0 where
    start : Reach server s (serving server s)
    next : {r q : Running} → Reach server s r → Step r q → Reach server s q
