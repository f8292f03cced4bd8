-- ===== src/Auth/Examples.antt =====
-- Runs of the login messages of src/internal/mactelnet/auth.go.
use mactelnet_proxy.Base.{arith, [], ◌∷◌, Bytes, replicate}
use mactelnet_proxy.Auth.Messages.{build_auth_init, build_auth_finish}
use mactelnet_proxy.Auth.Records.{
  Message, init_records, finish_records, build_auth_init-Message, build_auth_finish-Message,
}

abbrev admin : Bytes
admin = b'a' ∷ b'd' ∷ b'm' ∷ b'i' ∷ b'n' ∷ []

abbrev buffer : Bytes
buffer = replicate 80 0

build_auth_init-Message_test :
    Message buffer (init_records admin (3 ∷ 4 ∷ [])) (build_auth_init buffer admin (3 ∷ 4 ∷ []))
build_auth_init-Message_test = build_auth_init-Message buffer admin (3 ∷ 4 ∷ []) (omega arith)

build_auth_finish-Message_example :
    Message buffer
      (finish_records (0 ∷ 1 ∷ []) admin (b'v' ∷ []) 80 24)
      (build_auth_finish buffer (0 ∷ 1 ∷ []) admin (b'v' ∷ []) 80 24)
build_auth_finish-Message_example =
    build_auth_finish-Message buffer (0 ∷ 1 ∷ []) admin (b'v' ∷ []) 80 24 (omega arith)
