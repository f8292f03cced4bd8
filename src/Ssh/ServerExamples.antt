-- ===== src/Ssh/ServerExamples.antt =====
-- Runs of the server's files and keys: src/internal/sshserver/server.go and keys.go.
use mactelnet_proxy.Base.{
  ◌≡◌, ◌↔◌, refl, sym, ap, true, List, [], ◌∷◌, Bytes, Option, none, some, ok,
}
use mactelnet_proxy.Text.Strings.{codes}
use mactelnet_proxy.Ssh.Keys.{SshKeys}
use mactelnet_proxy.Ssh.Files.{
  FileSys, ReadResult, content, missing, IsLawful, HostKeys, IsReadable, load_or_create_host_key,
  generate_host_key, create, load_authorized_keys, load_read, stub,
}
use mactelnet_proxy.Ssh.Server.{
  Server, Happening, files_change, hangup, auth_public_key, run_happenings,
}
use mactelnet_proxy.Ssh.ServerLaws.{load_or_create_host_key_again, load_authorized_keys_again}
use mactelnet_proxy.Ssh.ReloadLaws.{Accepted, last_text, auth_public_key-run_happenings}

-- A disk that holds one file, whatever its name.
abbrev read_disk : Option Bytes → ReadResult
read_disk none = missing
read_disk (some b) = content b

abbrev pub disk : FileSys
disk = record {
  State = Option Bytes;
  dir = λ path. [];
  read_file = λ s path. read_disk s;
  mkdir_all = λ s path. some s;
  write_file = λ s path b. some (some b);
}

unsome : {a b : Option Bytes} → Path (Option (Option Bytes)) (some a) (some b) → b ≡ a
unsome e = cc

disk-IsLawful : IsLawful disk
disk-IsLawful = record { read-write = λ s path b e. ap read_disk (unsome e) }

-- Keys that are their own files.
abbrev pub host_keys : HostKeys
host_keys = record {
  Priv = Bytes;
  Signer = Bytes;
  generated = some (codes "key");
  pem = λ k. some k;
  parse_private = λ text. some text;
  new_signer = λ k. some k;
}

host_keys-IsReadable : IsReadable host_keys
host_keys-IsReadable = record { parse_private-pem = λ k e. sym e }

load_or_create_host_key_again_example :
    load_or_create_host_key disk host_keys (some (codes "key")) []
    ≡ (ok (codes "key"), some (codes "key"))
unfolding load_or_create_host_key generate_host_key create
load_or_create_host_key_again_example =
    load_or_create_host_key_again disk disk-IsLawful host_keys host_keys-IsReadable none
      (some (codes "key")) [] (codes "key") refl

abbrev pub plain_keys : SshKeys
plain_keys = record { PublicKey = Bytes; parse_key = λ line. some line; marshal = λ k. k }

load_authorized_keys_again_test :
    load_authorized_keys disk plain_keys (some stub) [] ≡ (ok [], some stub)
unfolding load_authorized_keys load_read create
load_authorized_keys_again_test =
    load_authorized_keys_again disk disk-IsLawful plain_keys none (some stub) [] [] refl

abbrev pub server : Server disk plain_keys host_keys
server = record {
  cfg = record {
    listen_addr = [];
    host_key_path = [];
    authorized_keys = [];
    iface = [];
    vlan_id = 0;
  };
  signer = [];
  keys = codes "old" ∷ [];
}

abbrev edited : List (Happening disk plain_keys host_keys)
edited = files_change (some (codes "new")) ∷ hangup ∷ files_change none ∷ []

auth_public_key-run_happenings_example :
    (auth_public_key disk plain_keys host_keys
        (run_happenings disk plain_keys host_keys edited server none).0
        (codes "new")
      ≡ true)
    ↔ Accepted disk plain_keys host_keys
        (codes "new")
        (codes "old" ∷ [])
        (last_text disk plain_keys host_keys edited [] none none)
auth_public_key-run_happenings_example =
    auth_public_key-run_happenings disk plain_keys host_keys edited server none (codes "new")
