-- ===== src/Tests/Sockets.antt =====
-- A UDP socket whose ring of three packets holds two, and wraps around between them, and a TCP
-- socket that holds two pbufs, the first of them read in part.
use micro_lua.Base.{
  ℕ, some, none, ◌≡◌, refl, true, false, List, [], ◌∷◌, arith, ◌==◌, if◌then◌else◌,
}
use micro_lua.Tcp.{Tcp}
use micro_lua.Udp.{Packet, Udp, close}
use micro_lua.Udp.Queue.{
  IsUdp, contents, run, run_queue, run-run_queue, Action, arrives, receives, close_lem,
}

abbrev packet : ℕ → Packet
packet n = record { p = n; addr = 16; port = 53 }

abbrev half_full : Udp
half_full = record {
  pcb = true;
  head = 2;
  len = 2;
  cap = 3;
  dropped = 0;
  recv_packets = λ i. if i == 2 then packet 100 else packet 200;
}

half_full-IsUdp : IsUdp half_full
half_full-IsUdp = record {
  pos = omega arith;
  byte = omega arith;
  fits = omega arith;
  inside = omega arith;
}

abbrev traffic : List Action
traffic =
    arrives (packet 300) ∷ arrives (packet 400) ∷ receives false true ∷ receives false false ∷ []

run-run_queue_example :
    ((run traffic half_full).0 ≡ (run_queue 3 traffic (contents half_full)).0)
    × (contents (run traffic half_full).1 ≡ (run_queue 3 traffic (contents half_full)).1)
    × IsUdp (run traffic half_full).1
run-run_queue_example = run-run_queue traffic half_full half_full-IsUdp

left_over : (run_queue 3 traffic (contents half_full)).1 ≡ packet 300 ∷ []
left_over = refl

close_lem_example : (close half_full).0 ≡ 100 ∷ 200 ∷ []
close_lem_example = close_lem half_full half_full-IsUdp refl

-- Pbuf 8 leads to pbuf 9, and pbuf 10 arrives.
abbrev connection : Tcp
connection = record {
  recv_head = some 8;
  recv_tail = some 9;
  next = λ p. if p == 8 then some 9 else none;
  payload = λ p. if p == 8 then 1 ∷ 2 ∷ 3 ∷ [] else if p == 9 then 4 ∷ [] else 5 ∷ 6 ∷ [];
  recv_off = 1;
  err = 0;
  rx_closed = false;
}
