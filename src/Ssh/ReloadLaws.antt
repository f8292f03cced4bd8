-- ===== src/Ssh/ReloadLaws.antt =====
-- Who may log in to a server whose files change: the reloading of src/internal/sshserver/server.go, and
-- which connections its accept loop hands on.
use mactelnet_proxy.Base.{
  ◌≡◌, ◌↔◌, refl, ◌∙◌, Bool, true, false, List, [], ◌∷◌, ◌++◌, append-nil, append_assoc, Bytes,
  Option, none, some,
}
use mactelnet_proxy.Text.Strings.{split_lines}
use mactelnet_proxy.Ssh.Keys.{SshKeys, keys_of_lines, key_match}
use mactelnet_proxy.Ssh.KeysLaws.{Some, key_match-keys_of_lines}
use mactelnet_proxy.Ssh.Files.{
  FileSys, ReadResult, content, missing, unreadable, FileError, HostKeys, stub, create,
  load_authorized_keys, load_read, no_keys,
}
use mactelnet_proxy.Ssh.ServerLaws.{keys_of_lines-stub}
use mactelnet_proxy.Ssh.Server.{
  Accept, connected, listener_closed, accept_error, Serving, running, returned, accept_loop, serve,
  Server, reload, reloaded, auth_public_key, Happening, files_change, hangup, run_happenings,
}

module _ (fs : FileSys) (ssh : SshKeys) (hk : HostKeys) where
  -- What a reading of a file yields, where it makes the file if it is missing.
  abbrev made_text : Option FileError × fs.State → Option Bytes × fs.State
  made_text (none, s) = (some stub, s)
  made_text (some e, s) = (none, s)

  abbrev text_of : fs.State → Bytes → ReadResult → Option Bytes × fs.State
  text_of s path missing = made_text (create fs s path stub)
  text_of s path unreadable = (none, s)
  text_of s path (content b) = (some b, s)

  abbrev pub text_at : fs.State → Bytes → Option Bytes × fs.State
  text_at s path = text_of s path (fs.read_file s path)

  abbrev later : Option Bytes → Option Bytes → Option Bytes
  later none before = before
  later (some b) before = some b

  -- The text that the last SIGHUP read, if one could.
  unfoldable pub last_text :
      List (Happening fs ssh hk) → Bytes → fs.State → Option Bytes → Option Bytes
  last_text [] path s before = before
  last_text (files_change s' ∷ hs) path s before = last_text hs path s' before
  last_text (hangup ∷ hs) path s before =
      let (text, s') = text_at s path in last_text hs path s' (later text before)

  abbrev keys_or : List ssh.PublicKey → Option Bytes → List ssh.PublicKey
  keys_or keys none = keys
  keys_or keys (some b) = keys_of_lines ssh (split_lines b)

  abbrev with_keys : Server fs ssh hk → Option Bytes → Server fs ssh hk
  with_keys server before = record server { keys = keys_or server.keys before }

  -- A reload of the server with the keys of the text before gives those of the text after.
  abbrev Follows :
      Server fs ssh hk
      → Option Bytes
      → (Server fs ssh hk × Option FileError) × fs.State
      → Option Bytes × fs.State
      → Type 0
  Follows server before r t = (r.0.0 ≡ with_keys server (later t.0 before)) × (r.1 ≡ t.1)

  reloaded-no_keys :
      (server : Server fs ssh hk) (before : Option Bytes) (c : Option FileError × fs.State)
      → Follows server before
          (reloaded fs ssh hk (with_keys server before) (no_keys fs ssh c))
          (made_text c)
  unfolding reloaded
  reloaded-no_keys server before (none, s) = (rw (keys_of_lines-stub ssh) refl, refl)
  reloaded-no_keys server before (some e, s) = (refl, refl)

  reloaded-load_read :
      (server : Server fs ssh hk) (before : Option Bytes) (s : fs.State) (path : Bytes)
      (k : ReadResult)
      → Follows server before
          (reloaded fs ssh hk (with_keys server before) (load_read fs ssh s path k))
          (text_of s path k)
  unfolding reloaded load_read
  reloaded-load_read server before s path missing =
      reloaded-no_keys server before (create fs s path stub)
  reloaded-load_read server before s path unreadable = (refl, refl)
  reloaded-load_read server before s path (content b) = (refl, refl)

  run_happenings-last_text :
      (hs : List (Happening fs ssh hk)) (server : Server fs ssh hk) (s : fs.State)
      (before : Option Bytes)
      → (run_happenings fs ssh hk hs (with_keys server before) s).0.keys
        ≡ keys_or server.keys (last_text hs server.cfg.authorized_keys s before)
  unfolding run_happenings last_text reload load_authorized_keys
  run_happenings-last_text [] server s before = refl
  run_happenings-last_text (files_change s' ∷ hs) server s before =
      run_happenings-last_text hs server s' before
  run_happenings-last_text (hangup ∷ hs) server s before =
      let path = server.cfg.authorized_keys in
      let (e, f) = reloaded-load_read server before s path (fs.read_file s path) in
      rw (e, run_happenings)
        (rw f
          (run_happenings-last_text hs server (text_at s path).1 (later (text_at s path).0 before)))

  -- What lets a key in: the text that was read last, or the keys from before.
  abbrev pub Accepted : ssh.PublicKey → List ssh.PublicKey → Option Bytes → Type 0
  Accepted key keys none = key_match ssh key keys ≡ true
  Accepted key keys (some b) = Some ssh key (split_lines b)

  keys_or-Accepted :
      (key : ssh.PublicKey) (keys : List ssh.PublicKey) (text : Option Bytes)
      → (key_match ssh key (keys_or keys text) ≡ true) ↔ Accepted key keys text
  keys_or-Accepted key keys none = (λ h. h, λ h. h)
  keys_or-Accepted key keys (some b) = key_match-keys_of_lines ssh key (split_lines b)

  -- However the files change and SIGHUPs come, a server lets a key in exactly if a line of the text that
  -- the last SIGHUP could read lists it, and before any such SIGHUP if it did from the start: a file that
  -- cannot be read changes nothing, and one that is missing is made and lists nobody.
  pub auth_public_key-run_happenings :
      (hs : List (Happening fs ssh hk)) (server : Server fs ssh hk) (s : fs.State)
      (key : ssh.PublicKey)
      → (auth_public_key fs ssh hk (run_happenings fs ssh hk hs server s).0 key ≡ true)
        ↔ Accepted key server.keys (last_text hs server.cfg.authorized_keys s none)
  unfolding auth_public_key
  auth_public_key-run_happenings hs server s key =
      rw (run_happenings-last_text hs server s none) (keys_or-Accepted key server.keys _)

module _ {Conn : Type 0} where
  -- The connections that are accepted before the listener is closed, and whether it is.
  abbrev pub before_close : List (Accept Conn) → List Conn
  before_close [] = []
  before_close (connected c ∷ as') = c ∷ before_close as'
  before_close (listener_closed ∷ as') = []
  before_close (accept_error ∷ as') = before_close as'

  abbrev pub closes : List (Accept Conn) → Bool
  closes [] = false
  closes (connected c ∷ as') = closes as'
  closes (listener_closed ∷ as') = true
  closes (accept_error ∷ as') = closes as'

  abbrev pub serving : Bool → List Conn → Serving Conn
  serving true conns = returned conns
  serving false conns = running conns

  accept_loop_lem :
      (conns : List Conn) (as' : List (Accept Conn))
      → accept_loop conns as' ≡ serving (closes as') (conns ++ before_close as')
  unfolding accept_loop
  accept_loop_lem conns [] = rw append-nil refl
  accept_loop_lem conns (connected c ∷ as') =
      accept_loop_lem (conns ++ c ∷ []) as' ∙ rw append_assoc refl
  accept_loop_lem conns (listener_closed ∷ as') = rw append-nil refl
  accept_loop_lem conns (accept_error ∷ as') = accept_loop_lem conns as'

  -- Serve hands every connection that is accepted before its listener is closed to a goroutine, in order;
  -- other errors do not end it, and it returns exactly when the listener is closed.
  pub serve_lem :
      (as' : List (Accept Conn)) → serve true as' ≡ serving (closes as') (before_close as')
  unfolding serve
  serve_lem as' = accept_loop_lem [] as'
