-- ===== src/Ssh/ChannelLaws.antt =====
-- What handleSession of src/internal/sshserver/server.go keeps, whatever the client and the exec do.
use mactelnet_proxy.Base.{
  ℕ, ◌≤◌, ◌≡◌, ◌⊎◌, inl, refl, arith, Bool, true, false, List, [], ◌∷◌, ◌++◌, Bytes, Option, none,
  some, length, length-append, u32_mod, ◌%◌,
}
use mactelnet_proxy.Ssh.Channel.{
  Chan, Exec, not_started, spawned, running, exec_over, Unmarshal, ReqType, pty_req, window_change,
  exec_req, other_req, WinChange, handle_req, handle_req_of, on_pty_req, on_window_change, on_exec,
  exec_begins, exec_ends, reqs_end, Step, request, begins, resizes, ends, drains, hangs_up, Reach,
  serving, ended, drained, start, next, winch_cap,
}

abbrev pub command_of : Exec → List Bytes
command_of not_started = []
command_of (spawned cmd) = cmd ∷ []
command_of (running cmd _ _) = cmd ∷ []
command_of (exec_over cmd _) = cmd ∷ []

abbrev pub is_started : Exec → Bool
is_started not_started = false
is_started (spawned _) = true
is_started (running _ _ _) = true
is_started (exec_over _ _) = true

-- The status of an exec that is over, and none of any other.
abbrev pub status_of : Exec → List ℕ
status_of (exec_over _ code) = (code % u32_mod) ∷ []
status_of _ = []

pub record Inv (c : Chan) : Type 0 where
  pub one_command : c.dispatched ≡ command_of c.exec
  pub started : c.exec_started ≡ is_started c.exec
  pub status : (c.exit_status ≡ []) ⊎ ((c.phase ≡ ended) × (c.exit_status ≡ status_of c.exec))
  pub queue : length c.winch_ch ≤ winch_cap

on_pty_req-Inv : (o : Option WinChange) (c : Chan) → Inv c → Inv (on_pty_req o c)
unfolding on_pty_req
on_pty_req-Inv none c v = ground arith
on_pty_req-Inv (some w) c v = ground arith

on_window_change-Inv : (o : Option WinChange) (c : Chan) → Inv c → Inv (on_window_change o c)
unfolding on_window_change
on_window_change-Inv none c v = ground arith
on_window_change-Inv (some w) c v = ground (arith, length-append c.winch_ch (w ∷ []))

on_exec-Inv : (o : Option Bytes) (c : Chan) → c.phase ≡ serving → Inv c → Inv (on_exec o c)
unfolding on_exec
on_exec-Inv none c p v = ground arith
on_exec-Inv (some cmd) c p v = ground arith

handle_req_of-Inv :
    (k : ReqType) (u : Unmarshal) (payload : Bytes) (c : Chan)
    → c.phase ≡ serving
    → Inv c
    → Inv (handle_req_of k u payload c)
unfolding handle_req_of
handle_req_of-Inv pty_req u payload c p v = on_pty_req-Inv (u.pty_req_msg payload) c v
handle_req_of-Inv window_change u payload c p v =
    on_window_change-Inv (u.win_change_msg payload) c v
handle_req_of-Inv exec_req u payload c p v = on_exec-Inv (u.exec_msg payload) c p v
handle_req_of-Inv other_req u payload c p v = ground arith

Step-Inv : {u : Unmarshal} {c d : Chan} → Step u c d → Inv c → Inv d
unfolding handle_req reqs_end exec_begins exec_ends drained
Step-Inv {u} {c} (request req p) v = handle_req_of-Inv req.req_type u req.payload c p v
Step-Inv (hangs_up p) v = ground arith
Step-Inv (begins cmd e) v = ground arith
Step-Inv (resizes w ws e) v = ground arith
Step-Inv (ends cmd cols rows code p e) v = ground arith
Step-Inv (drains cmd cols rows code p e) v = ground arith

-- In every state that a channel can reach, at most one command was started, an exit status was
-- sent only when that command was over, once and with its code, and at most four window changes
-- wait.
pub Reach-Inv : {u : Unmarshal} {c : Chan} → Reach u c → Inv c
Reach-Inv start = record {
  one_command = refl;
  started = refl;
  status = inl refl;
  queue = omega arith;
}
Reach-Inv (next r s) = Step-Inv s (Reach-Inv r)

-- A second exec request is answered with success, and changes nothing else.
pub second_exec :
    (u : Unmarshal) (payload cmdline : Bytes) (c : Chan)
    → u.exec_msg payload ≡ some cmdline
    → c.exec_started ≡ true
    → handle_req u (record { req_type = exec_req; payload = payload }) c
      ≡ record c { replies = c.replies ++ true ∷ [] }
unfolding handle_req
second_exec u payload cmdline c e s = ground arith
