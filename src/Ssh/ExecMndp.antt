-- ===== src/Ssh/ExecMndp.antt =====
-- src/internal/sshserver/exec.go: execMndp and its table. What the socket of Discover yields is given, and
-- the text that encoding/json makes.
use mactelnet_proxy.Base.{
  ℕ, ◌-◌, ◌*◌, ◌/◌, ◌%◌, Bool, false, if◌then◌else◌, ltb, List, [], ◌∷◌, ◌++◌, Bytes, Option, none,
  some, ok, err,
}
use mactelnet_proxy.Text.Strings.{codes, is_empty, pad_right}
use mactelnet_proxy.Text.Numbers.{pos, negsuc, itoa}
use mactelnet_proxy.Text.Flags.{
  Flags, string_value, bool_value, int_value, find, string_of, bool_of, int_of, parse,
}
use mactelnet_proxy.Seq.Schedule.{Duration, negative, nanos, second}
use mactelnet_proxy.Mndp.Discover.{Neighbor, Event, discover}
use mactelnet_proxy.Ssh.Exec.{
  Config, bad_flags, timeout_positive, searching, discover_failed, encode_failed, complained,
  printed, Exec, complain, behind,
}

-- The product of `time.Duration(*timeout)*time.Second`, as an int64.
unfoldable pub seconds_window : ℕ → Duration
seconds_window t =
    let n = t * second % 18_446_744_073_709_551_616 in
    if ltb n 9_223_372_036_854_775_808 then nanos n else negative (18_446_744_073_709_551_616 - n)

-- The parts of a row that are left out where they are empty.
unfoldable pub platform_part : Neighbor → Bytes
platform_part n =
    if is_empty n.platform
    then []
    else codes " (" ++ (n.platform ++ (32 ∷ (n.version ++ (32 ∷ (n.board ++ codes ")")))))

-- The uptime that the parser yields is a whole number of seconds.
unfoldable pub uptime_part : Neighbor → Bytes
uptime_part n =
    let secs = n.uptime / second in
    if ltb 0 n.uptime
    then codes "  up "
      ++ (itoa (secs / 86400) ++ (codes " days " ++ (itoa (secs % 86400 / 3600) ++ codes " hours")))
    else []

unfoldable pub software_part : Neighbor → Bytes
software_part n = if is_empty n.software_id then [] else codes "  " ++ n.software_id

unfoldable pub iface_part : Neighbor → Bytes
iface_part n = if is_empty n.iface then [] else 32 ∷ n.iface

-- The addresses are ASCII, so that fmt's runes are their bytes.
unfoldable pub neighbor_row : Neighbor → Bytes
neighbor_row n =
    pad_right 15 n.ipv4
    ++ (32
        ∷ (pad_right 17 n.mac
            ++ (32
                ∷ (n.identity
                    ++ (platform_part n
                        ++ (uptime_part n ++ (software_part n ++ (iface_part n ++ 10 ∷ []))))))))

unfoldable pub neighbor_rows : List Neighbor → Bytes
neighbor_rows [] = []
neighbor_rows (n ∷ ns) = neighbor_row n ++ neighbor_rows ns

abbrev pub neighbor_header : Bytes
neighbor_header =
    pad_right 15 (codes "IP")
    ++ (32
        ∷ (pad_right 17 (codes "MAC-Address")
            ++ (32 ∷ codes "Identity (platform version hardware) uptime")))

unfoldable pub neighbor_table : List Neighbor → Bytes
neighbor_table ns = 10 ∷ (neighbor_header ++ (10 ∷ neighbor_rows ns))

-- What an interface and a window let Discover hear, and the JSON of its result.
pub record MndpWorld : Type 0 where
  pub hears : Bytes → Duration → Option (List Event)
  pub json : List Neighbor → Option Bytes

abbrev pub mndp_flags : Bytes → Flags
mndp_flags iface =
    (codes "t", int_value (pos 5))
    ∷ (codes "i", string_value iface)
    ∷ (codes "j", bool_value false)
    ∷ []

-- `Discover`: the neighbours, or an error.
unfoldable pub discover_on : MndpWorld → Bytes → Duration → Option (List Neighbor)
discover_on w iface window = elim (w.hears iface window) [
  | none ↦ none
  | some events ↦ let (ns, bad) = discover events in if bad then none else some ns
]

unfoldable pub print_json : MndpWorld → List Neighbor → Exec
print_json w ns = elim (w.json ns) [
  | none ↦ complain 1 encode_failed
  | some text ↦ record { code = 0; actions = printed text ∷ [] }
]

unfoldable pub print_neighbors : MndpWorld → Bool → List Neighbor → Exec
print_neighbors w as_json ns =
    if as_json
    then print_json w ns
    else record { code = 0; actions = printed (neighbor_table ns) ∷ [] }

-- From the positive number of seconds on.
unfoldable pub run_discovery : MndpWorld → Bytes → Bool → ℕ → Exec
run_discovery w iface as_json secs =
    behind (if as_json then [] else complained searching ∷ [])
      (elim (discover_on w iface (seconds_window secs)) [
        | none ↦ complain 1 discover_failed
        | some ns ↦ print_neighbors w as_json ns
      ])

unfoldable pub run_mndp_flags : MndpWorld → Flags → Exec
run_mndp_flags w fs = elim (int_of (find (codes "t") fs)) [
  | negsuc n ↦ complain 2 timeout_positive
  | pos n ↦
      if ltb 0 n
      then run_discovery w (string_of (find (codes "i") fs)) (bool_of (find (codes "j") fs)) n
      else complain 2 timeout_positive
]

-- `execMndp`
unfoldable pub exec_mndp : (Bytes → Option Duration) → Config → MndpWorld → List Bytes → Exec
exec_mndp parse_duration cfg w args = elim (parse parse_duration (mndp_flags cfg.iface) args) [
  | err e ↦ complain 2 bad_flags
  | ok fs ↦ run_mndp_flags w fs.flags
]
