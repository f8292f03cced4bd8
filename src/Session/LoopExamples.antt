-- ===== src/Session/LoopExamples.antt =====
-- Runs of the receive loop of src/internal/mactelnet/loop.go over frames.
use mactelnet_proxy.Base.{false, List, [], ◌∷◌, Bytes}
use mactelnet_proxy.Frame.Build.{build_frame}
use mactelnet_proxy.Frame.Receive.{RawReceiver, broadcast, Recv, recv_frame, recv_again}
use mactelnet_proxy.Seq.Counters.{Counters}
use mactelnet_proxy.Session.Stream.{data_packet}
use mactelnet_proxy.Session.Examples.{client, router, just_open}

abbrev receiver : RawReceiver
receiver = record { vlan_id = 10; own_mac = client; closed = false }

-- The session's own frame, as its socket shows it again.
abbrev own_frame : Bytes
own_frame = 255 ∷ 255 ∷ 255 ∷ 255 ∷ 255 ∷ 255 ∷ 2 ∷ 1 ∷ 2 ∷ 3 ∷ 4 ∷ 5 ∷ 0x81 ∷ 0 ∷ []

abbrev prompt : Bytes
prompt = data_packet just_open 4_294_967_295 (b'>' ∷ [])

abbrev greeting : Bytes
greeting = data_packet just_open 0 (b'h' ∷ b'i' ∷ [])

-- A prompt to all, a timeout, the own frame, the prompt again, and a greeting.
abbrev socket : List Recv
socket =
    recv_frame (build_frame router broadcast 10 7 prompt)
    ∷ recv_again
    ∷ recv_frame own_frame
    ∷ recv_frame (build_frame router client 10 8 prompt)
    ∷ recv_frame (build_frame router client 10 9 greeting)
    ∷ []
