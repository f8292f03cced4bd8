-- ===== src/Ssh/Channel.antt =====
-- src/internal/sshserver/server.go: handleSession and handleReq, one SSH session channel. The goroutine
-- that runs the exec begins, takes window changes and ends at its own times: these are steps.
use mactelnet_proxy.Base.{
  ℕ, ◌%◌, ◌≡◌, Bool, true, false, if◌then◌else◌, ltb, List, [], ◌∷◌, ◌++◌, Bytes, Option, none,
  some, length, u32_mod,
}

pub record WinChange : Type 0 where
  pub cols : ℕ
  pub rows : ℕ

-- What `ssh.Unmarshal` makes of a payload: `none` is an error.
pub record Unmarshal : Type 0 where
  pub pty_req_msg : Bytes → Option WinChange
  pub win_change_msg : Bytes → Option WinChange
  pub exec_msg : Bytes → Option Bytes

pub data ReqType : Type 0 where
  pty_req window_change exec_req other_req : ReqType

pub record Request : Type 0 where
  pub req_type : ReqType
  pub payload : Bytes

-- The exec's goroutine: not there, spawned, running with the size that it read, or done.
pub data Exec : Type 0 where
  not_started : Exec
  spawned : Bytes → Exec
  running : Bytes → ℕ → ℕ → Exec
  exec_over : Bytes → ℕ → Exec

-- `handleSession` serves, or waits for the exec after the requests have ended, or has returned.
pub data Phase : Type 0 where
  serving draining ended : Phase

pub record Chan : Type 0 where
  pub pty_cols : ℕ
  pub pty_rows : ℕ
  pub exec_started : Bool
  pub exec : Exec
  pub winch_ch : List WinChange
  pub replies : List Bool
  pub dispatched : List Bytes
  pub cancelled : Bool
  pub exit_status : List ℕ
  pub phase : Phase

abbrev pub winch_cap : ℕ
winch_cap = 4

-- The start of `handleSession`.
abbrev pub open_chan : Chan
open_chan = record {
  pty_cols = 0;
  pty_rows = 0;
  exec_started = false;
  exec = not_started;
  winch_ch = [];
  replies = [];
  dispatched = [];
  cancelled = false;
  exit_status = [];
  phase = serving;
}

abbrev reply : Chan → Bool → Chan
reply c ok = record c { replies = c.replies ++ ok ∷ [] }

unfoldable pub on_pty_req : Option WinChange → Chan → Chan
on_pty_req none c = reply c false
on_pty_req (some w) c = reply (record c { pty_cols = w.cols; pty_rows = w.rows }) true

-- A full channel drops the event.
unfoldable pub on_window_change : Option WinChange → Chan → Chan
on_window_change none c = reply c false
on_window_change (some w) c =
    reply
      (if ltb (length c.winch_ch) winch_cap
        then record c { winch_ch = c.winch_ch ++ w ∷ [] }
        else c)
      true

unfoldable pub on_exec : Option Bytes → Chan → Chan
on_exec none c = reply c false
on_exec (some cmdline) c =
    if c.exec_started
    then reply c true
    else (let c' = reply c true in
        record c' {
          exec_started = true;
          exec = spawned cmdline;
          dispatched = c.dispatched ++ cmdline ∷ [];
        })

-- `handleReq`
unfoldable pub handle_req_of : ReqType → Unmarshal → Bytes → Chan → Chan
unfolding on_pty_req on_window_change on_exec
handle_req_of pty_req u payload c = on_pty_req (u.pty_req_msg payload) c
handle_req_of window_change u payload c = on_window_change (u.win_change_msg payload) c
handle_req_of exec_req u payload c = on_exec (u.exec_msg payload) c
handle_req_of other_req u payload c = reply c false

unfoldable pub handle_req : Unmarshal → Request → Chan → Chan
unfolding handle_req_of
handle_req u req c = handle_req_of req.req_type u req.payload c

-- The exec's goroutine reads the terminal size when it begins, not when it is spawned.
unfoldable pub exec_begins : Bytes → Chan → Chan
exec_begins cmdline c = record c { exec = running cmdline c.pty_cols c.pty_rows }

-- `sendExitStatus`, and the end of `handleSession`; the deferred calls cancel and close.
unfoldable pub exec_ends : Bytes → ℕ → Chan → Chan
exec_ends cmdline code c = record c {
  exec = exec_over cmdline code;
  exit_status = c.exit_status ++ (code % u32_mod) ∷ [];
  cancelled = true;
  phase = ended;
}

-- The request stream ends: cancel, and wait for the exec if there is one.
unfoldable pub reqs_end : Chan → Chan
reqs_end c = record c { cancelled = true; phase = if c.exec_started then draining else ended }

-- The exec for which `handleSession` waited is done: it returns with no status sent.
unfoldable pub drained : Bytes → ℕ → Chan → Chan
drained cmdline code c = record c { exec = exec_over cmdline code; phase = ended }

module _ (u : Unmarshal) where
  -- A step of the loop or of the exec's goroutine.
  pub data Step (c : Chan) : Chan → Type 0 where
    request : (req : Request) → c.phase ≡ serving → Step c (handle_req u req c)
    hangs_up : c.phase ≡ serving → Step c (reqs_end c)
    begins : (cmdline : Bytes) → c.exec ≡ spawned cmdline → Step c (exec_begins cmdline c)
    resizes :
        (w : WinChange) (ws : List WinChange)
        → c.winch_ch ≡ w ∷ ws
        → Step c (record c { winch_ch = ws })
    ends :
        (cmdline : Bytes) (cols rows code : ℕ)
        → c.phase ≡ serving
        → c.exec ≡ running cmdline cols rows
        → Step c (exec_ends cmdline code c)
    drains :
        (cmdline : Bytes) (cols rows code : ℕ)
        → c.phase ≡ draining
        → c.exec ≡ running cmdline cols rows
        → Step c (drained cmdline code c)

  pub data Reach : Chan → Type 0 where
    start : Reach open_chan
    next : {c d : Chan} → Reach c → Step c d → Reach d
