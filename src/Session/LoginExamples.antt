-- ===== src/Session/LoginExamples.antt =====
-- Runs of the login of src/internal/mactelnet/session.go.
use mactelnet_proxy.Base.{ℕ, ◌≡◌, refl, false, [], ◌∷◌, none, some, length, replicate}
use mactelnet_proxy.Wire.Header.{encode, cp_type_pass_salt, cp_type_end_auth}
use mactelnet_proxy.Wire.Control.{encode_control}
use mactelnet_proxy.Seq.Counters.{reserve_out, ack_counter_for}
use mactelnet_proxy.Auth.Messages.{
  Hashes, encode_next, build_auth_init, build_auth_finish, compute_md5_response,
}
use mactelnet_proxy.Session.State.{new_session, canceled, send_session_start, post, packet}
use mactelnet_proxy.Session.Outbound.{
  timer, send_repeatedly, retransmit, wait_for_ack, send_data_and_wait_ack,
}
use mactelnet_proxy.Session.Login.{
  Ecsrp, LoginWorld, handshake, greet, send_init, answer_salt, respond, finish, send_finish,
  await_end, await_control, salt_response,
}
use mactelnet_proxy.Session.LoginLaws.{LoginResult, handshake-LoginResult}
use mactelnet_proxy.Session.Transcript.{Transcript}
use mactelnet_proxy.Session.LoginWire.{handshake-Transcript}
use mactelnet_proxy.Session.Examples.{takes_all, schedules, fresh}

abbrev pub constant_hashes : Hashes
constant_hashes = record {
  md5 = λ b. replicate 16 1;
  sha256 = λ b. replicate 32 2;
  length-md5 = λ b. refl;
  length-sha256 = λ b. refl;
}

abbrev pub fixed_keys : Ecsrp
fixed_keys = record {
  Priv = ℕ;
  keygen = some (5, replicate 33 6);
  docrypto = λ priv server client validator. some (replicate 32 7);
}

-- A router that acknowledges both messages, sends an MD5 salt and ends the login.
abbrev pub router_side : LoginWorld
router_side = record {
  init_waits = record { acks = 53 ∷ []; ended = timer } ∷ [];
  salt = record {
    arriving = record { cp_type = cp_type_pass_salt; body = replicate 16 9 } ∷ [];
    wait_error = canceled;
  };
  finish_waits = record { acks = 134 ∷ []; ended = timer } ∷ [];
  end_auth = record {
    arriving = record { cp_type = cp_type_end_auth; body = [] } ∷ [];
    wait_error = canceled;
  };
}

handshake-LoginResult_example : LoginResult router_side false (
    handshake constant_hashes fixed_keys takes_all schedules router_side
      (97 ∷ [])
      (98 ∷ [])
      80
      24
      fresh)
unfolding new_session
handshake-LoginResult_example =
    handshake-LoginResult constant_hashes fixed_keys takes_all schedules router_side (97 ∷ [])
      (98 ∷ []) 80 24 fresh

-- The login of this router succeeds, and puts three packets on the wire.
login_test :
    let (s, e) =
      handshake constant_hashes fixed_keys takes_all schedules router_side
        (97 ∷ [])
        (98 ∷ [])
        80
        24
        fresh in
    (e ≡ none) × (length s.sent ≡ 3) × (s.counters.out ≡ 134)
unfolding new_session handshake greet send_init answer_salt respond finish send_finish await_end
    await_control salt_response send_session_start send_data_and_wait_ack send_repeatedly retransmit
    wait_for_ack post packet encode encode_control encode_next build_auth_init build_auth_finish
    compute_md5_response reserve_out ack_counter_for
login_test = (refl, refl, refl)

handshake-Transcript_example :
    Transcript constant_hashes fixed_keys schedules router_side (97 ∷ []) (98 ∷ []) 80 24 fresh (
      handshake constant_hashes fixed_keys takes_all schedules router_side
        (97 ∷ [])
        (98 ∷ [])
        80
        24
        fresh)
unfolding new_session
handshake-Transcript_example =
    handshake-Transcript constant_hashes fixed_keys takes_all schedules router_side (97 ∷ [])
      (98 ∷ []) 80 24 fresh
