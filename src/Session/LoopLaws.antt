-- ===== src/Session/LoopLaws.antt =====
-- The receive loop of src/internal/mactelnet/loop.go over the frames of a VLAN: from the wire to the terminal.
use mactelnet_proxy.Base.{ℕ, suc, ◌+◌, ◌%◌, List, [], ◌∷◌, ◌++◌, Bytes, length, replicate, u32_mod}
use mactelnet_proxy.Seq.Counters.{Counters}
use mactelnet_proxy.Session.State.{Session}
use mactelnet_proxy.Session.Stream.{data_packet}

-- The packets of a peer that sends texts from a counter on, each as often as its number says and once more.
abbrev pub packets : Session → ℕ → List (Bytes × ℕ) → List Bytes
packets s out [] = []
packets s out ((p, k) ∷ ps) =
    replicate (suc k) (data_packet s out p) ++ packets s ((out + length p) % u32_mod) ps
