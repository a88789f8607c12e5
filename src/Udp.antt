-- ===== src/Udp.antt =====
-- The received packets of a UDP socket, of lib/pico/lwip.udp.c: a ring of packets that lwIP fills by
-- a callback and threads empty. A pbuf and an address are known by their addresses; an operation that
-- frees pbufs returns their list. A section under the lwIP lock is one step.
pub mod Ring
pub mod Queue
use micro_lua.Base.{
  ℕ, zero, suc, ◌+◌, ◌-◌, ◌%◌, ◌^◌, Bool, true, false, Option, none, some, List, [], ◌∷◌, ◌==◌, leb,
  ltb, if◌then◌else◌, update,
}

pub record Packet : Type 0 where
  pub p : ℕ
  pub addr : ℕ
  pub port : ℕ

-- `pcb` says whether the socket is open. The ring is there if the capacity is not 0.
pub record Udp : Type 0 where
  pub pcb : Bool
  pub head : ℕ
  pub len : ℕ
  pub cap : ℕ
  pub dropped : ℕ
  pub recv_packets : ℕ → Packet

-- The socket after the callback, whether the event is set, and the pbufs that are freed.
pub record Handled : Type 0 where
  pub udp : Udp
  pub event_set : Bool
  pub freed : List ℕ

pub handle_recv : Packet → Udp → Handled
handle_recv pkt udp =
    let sum = udp.head + udp.len in
    let i = if leb udp.cap sum then sum - udp.cap else sum in
    if ltb udp.len udp.cap
    then record {
      udp = record udp {
        len = (udp.len + 1) % 2 ^ 8;
        recv_packets = update udp.recv_packets i pkt;
      };
      event_set = true;
      freed = [];
    }
    else record {
      udp = record udp { dropped = (udp.dropped + 1) % 2 ^ 8 };
      event_set = false;
      freed = pkt.p ∷ [];
    }

-- What a step of a wait for a packet does.
pub data RecvStep : Type 0 where
  waits : RecvStep
  timed_out : RecvStep
  received : (p : ℕ) → (from : Option (ℕ × ℕ)) → RecvStep

pub recv_loop : (timeout from : Bool) → Udp → RecvStep × Udp
recv_loop timeout from udp =
    let pkt = udp.recv_packets udp.head in
    if udp.len == 0 then ((if timeout then timed_out else waits), udp) else (
      received pkt.p (if from then some (pkt.addr, pkt.port) else none),
      record udp {
        head = if (udp.head + 1) % 2 ^ 8 == udp.cap then 0 else (udp.head + 1) % 2 ^ 8;
        len = udp.len - 1;
      },
    )

-- The loop of `UDP_close`: its rounds are the packets.
pub close_loop : (rounds : ℕ) → Udp → List ℕ × Udp
close_loop zero udp = ([], udp)
close_loop (suc k) udp =
    let next : Udp = record udp {
      head = if leb udp.cap ((udp.head + 1) % 2 ^ 8) then 0 else (udp.head + 1) % 2 ^ 8;
      len = udp.len - 1;
    } in
    let rest = close_loop k next in ((udp.recv_packets udp.head).p ∷ rest.0, rest.1)

-- `UDP_close`; without a ring nothing is freed.
pub close : Udp → List ℕ × Udp
close udp =
    let closed : Udp = record udp { pcb = false } in
    if udp.pcb then if udp.cap == 0 then ([], closed) else close_loop udp.len closed else ([], udp)

-- What `mod_new` returns: an error about the argument, an error of lwIP, or a socket.
pub data NewResult : Type 0 where
  too_large : NewResult
  no_memory : NewResult
  socket : Udp → NewResult

-- `mod_new` on the bit pattern of a capacity of 32 bits, a negative one of which is 0, by what
-- lwIP says and what the memory of the packets holds.
pub new : (cap : ℕ) → (created : Bool) → (memory : ℕ → Packet) → NewResult
new cap created memory =
    let cap' = if leb (2 ^ 31) cap then 0 else cap in
    if ltb cap' (2 ^ 8)
    then if created
      then socket
          (record { pcb = true; head = 0; len = 0; cap = cap'; dropped = 0; recv_packets = memory })
      else no_memory
    else too_large
