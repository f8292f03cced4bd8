-- ===== src/Cli/Mndp.antt =====
-- src/cmd/mactelnet-proxy/mndp.go: runMndp and its table. What Discover hears and the JSON text are given.
use mactelnet_proxy.Base.{
  ℕ, Bool, ◌/◌, ◌%◌, true, false, if◌then◌else◌, ltb, List, [], ◌∷◌, ◌++◌, Bytes, Option, none,
  some, ok, err,
}
use mactelnet_proxy.Text.Strings.{codes, is_empty, pad_right}
use mactelnet_proxy.Text.Numbers.{pos, negsuc, itoa}
use mactelnet_proxy.Text.Flags.{Flags, find, string_of, bool_of, int_of, parse}
use mactelnet_proxy.Seq.Schedule.{Duration, second}
use mactelnet_proxy.Mndp.Discover.{Neighbor}
use mactelnet_proxy.Ssh.ExecMndp.{MndpWorld, mndp_flags, seconds_window, discover_on}

pub data Message : Type 0 where
  bad_flags timeout_positive searching discover_failed encode_failed : Message

pub record Output : Type 0 where
  pub code : ℕ
  pub stderr : List Message
  pub stdout : Bytes

-- What one neighbour prints, call by call behind what is printed.
unfoldable pub print_platform : Neighbor → Bytes → Bytes
print_platform n out =
    if is_empty n.platform
    then out
    else out ++ (codes " (" ++ (n.platform ++ (32 ∷ (n.version ++ (32 ∷ (n.board ++ codes ")"))))))

unfoldable pub print_uptime : Neighbor → Bytes → Bytes
print_uptime n out =
    let secs = n.uptime / second in
    if ltb 0 n.uptime
    then out
      ++ (codes "  up "
          ++ (itoa (secs / 86400)
              ++ (codes " days " ++ (itoa (secs % 86400 / 3600) ++ codes " hours"))))
    else out

unfoldable pub print_software : Neighbor → Bytes → Bytes
print_software n out = if is_empty n.software_id then out else out ++ (codes "  " ++ n.software_id)

unfoldable pub print_iface : Neighbor → Bytes → Bytes
print_iface n out = if is_empty n.iface then out else out ++ (32 ∷ n.iface)

unfoldable pub print_row : Bytes → Neighbor → Bytes
print_row out n =
    print_iface n (
      print_software n (
        print_uptime n (
          print_platform n
            (out ++ (pad_right 15 n.ipv4 ++ (32 ∷ (pad_right 17 n.mac ++ (32 ∷ n.identity))))))))
    ++ 10 ∷ []

unfoldable pub print_rows : Bytes → List Neighbor → Bytes
print_rows out [] = out
print_rows out (n ∷ ns) = print_rows (print_row out n) ns

-- The header line, in bold.
abbrev pub table_header : Bytes
table_header =
    10
    ∷ 27
    ∷ (codes "[1m"
        ++ (pad_right 15 (codes "IP")
            ++ (32
                ∷ (pad_right 17 (codes "MAC-Address")
                    ++ (32
                        ∷ (codes "Identity (platform version hardware) uptime"
                            ++ (27 ∷ codes "[m")))))))

-- `printTable`
unfoldable pub print_table : List Neighbor → Bytes
print_table neighbors = print_rows (table_header ++ 10 ∷ []) neighbors

unfoldable pub print_found : MndpWorld → Bool → List Neighbor → Output
print_found w true ns = elim (w.json ns) [
  | none ↦ record { code = 1; stderr = encode_failed ∷ []; stdout = [] }
  | some text ↦ record { code = 0; stderr = []; stdout = text }
]
print_found w false ns = record { code = 0; stderr = searching ∷ []; stdout = print_table ns }

abbrev searched : Bool → List Message
searched as_json = if as_json then [] else searching ∷ []

unfoldable pub run_for : MndpWorld → Bytes → Bool → ℕ → Output
run_for w iface as_json secs = elim (discover_on w iface (seconds_window secs)) [
  | none ↦ record { code = 1; stderr = searched as_json ++ discover_failed ∷ []; stdout = [] }
  | some ns ↦ print_found w as_json ns
]

abbrev not_positive : Output
not_positive = record { code = 2; stderr = timeout_positive ∷ []; stdout = [] }

unfoldable pub run_flags : MndpWorld → Flags → Output
run_flags w fs = elim (int_of (find (codes "t") fs)) [
  | negsuc n ↦ not_positive
  | pos n ↦
      if ltb 0 n
      then run_for w (string_of (find (codes "i") fs)) (bool_of (find (codes "j") fs)) n
      else not_positive
]

-- `runMndp`
unfoldable pub run_mndp : (Bytes → Option Duration) → MndpWorld → List Bytes → Output
run_mndp parse_duration w args = elim (parse parse_duration (mndp_flags []) args) [
  | err e ↦ record { code = 2; stderr = bad_flags ∷ []; stdout = [] }
  | ok fs ↦ run_flags w fs.flags
]
