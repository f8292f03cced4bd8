-- ===== src/Ssh/LifecycleLaws.antt =====
-- Who has a connection to the server of src/internal/sshserver/server.go, whatever its goroutines do.
use mactelnet_proxy.Base.{◌≡◌, List, ◌++◌, none, All}
use mactelnet_proxy.Ssh.Keys.{SshKeys}
use mactelnet_proxy.Ssh.Files.{FileSys, HostKeys}
use mactelnet_proxy.Ssh.Channel
use mactelnet_proxy.Ssh.Channel.{Unmarshal, Chan}
use mactelnet_proxy.Ssh.Server.{Server, Happening, run_happenings}
use mactelnet_proxy.Ssh.ReloadLaws.{Accepted, last_text}
use mactelnet_proxy.Ssh.Lifecycle.{Conn, Running, Reach}

module _ (fs : FileSys) (ssh : SshKeys) (hk : HostKeys) (u : Unmarshal) where
  -- A connection was let in by the keys of its time, after the first of the happenings `hs`, and each of its
  -- channels is in a state that a channel can reach.
  abbrev pub LetIn :
      Server fs ssh hk → fs.State → List (Happening fs ssh hk) → Conn fs ssh hk u → Type 0
  LetIn server s hs c =
      (early : List (Happening fs ssh hk)) × (later : List (Happening fs ssh hk)) × (hs
        ≡ early ++ later)
      × Accepted fs ssh hk c.key server.keys
          (last_text fs ssh hk early server.cfg.authorized_keys s none)
      × All (Channel.Reach u) c.channels

  -- What has happened, to the server and to the files, and what it means for the connections.
  abbrev pub Guarded : Server fs ssh hk → fs.State → Running fs ssh hk u → Type 0
  Guarded server s r =
      (hs : List (Happening fs ssh hk)) × (run_happenings fs ssh hk hs server s
        ≡ (r.server, r.files))
      × All (LetIn server s hs) r.conns
