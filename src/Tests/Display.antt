-- ===== src/Tests/Display.antt =====
-- The theorems on the progress that p2p.c shows at work.
use network_camp.Prelude.{some, List, [], ◌∷◌, ◌++◌, ◌≡◌, arith, All}
use network_camp.P2p.Display.{Shown, show_sent}
use network_camp.P2p.Display.Sending.{IsUnderWay, IsEnd, show_sent-send_segment}
use network_camp.Tests.Peers.{file, info, out, prepared, sent}

show_sent-send_segment_example :
    (shown : List Shown) × (end : Shown) × (show_sent info 0 out ≡ some (shown ++ end ∷ []))
    × All IsUnderWay shown
    × IsEnd 5 3 end
show_sent-send_segment_example =
    show_sent-send_segment [] file 2 2 info out (omega arith) (omega arith) prepared sent
