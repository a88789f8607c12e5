-- ===== src/Udp/Queue.antt =====
-- The ring of lib/pico/lwip.udp.c implements a queue of bounded length, which drops what arrives
-- when it is full.
use micro_lua.Base.{
  ℕ, zero, suc, ◌+◌, ◌-◌, ◌%◌, ◌^◌, ◌≤◌, ◌<◌, ◌≡◌, refl, sym, ap, ◌∙◌, subst, inl, inr, Bool, true,
  false, none, some, List, [], ◌∷◌, ◌++◌, arith, ◌==◌, leb, ltb, if◌then◌else◌, update, length, map,
  cons_ap, Bool-cases,
}
use micro_lua.Udp.{
  Packet, Udp, Handled, handle_recv, RecvStep, waits, timed_out, received, recv_loop, close_loop,
  close, socket, new,
}
use micro_lua.Udp.Ring.{ring, after_slot, slot, length-ring, ring-update}

abbrev pub contents : Udp → List Packet
contents udp = ring udp.cap udp.recv_packets udp.head udp.len

-- A socket that has a ring.
pub record IsUdp (udp : Udp) : Type 0 where
  pub pos : 0 < udp.cap
  pub byte : udp.cap < 2 ^ 8
  pub fits : udp.len ≤ udp.cap
  pub inside : udp.head < udp.cap

-- The queue: what arrives is added or freed, and a receiver takes the first packet.
abbrev pub offer : (cap : ℕ) → Packet → List Packet → List ℕ × List Packet
offer cap pkt q = if ltb (length q) cap then ([], q ++ pkt ∷ []) else (pkt.p ∷ [], q)

abbrev pub take_first : (timeout from : Bool) → List Packet → RecvStep × List Packet
take_first timeout from [] = ((if timeout then timed_out else waits), [])
take_first timeout from (pkt ∷ q) =
    (received pkt.p (if from then some (pkt.addr, pkt.port) else none), q)

abbrev stored : Packet → Udp → Udp
stored pkt udp = record udp {
  len = suc udp.len;
  recv_packets = update udp.recv_packets (slot udp.cap udp.head udp.len) pkt;
}

handle_recv_room :
    (pkt : Packet) (udp : Udp)
    → IsUdp udp
    → ltb udp.len udp.cap ≡ true
    → handle_recv pkt udp ≡ record { udp = stored pkt udp; event_set = true; freed = [] }
unfolding handle_recv
handle_recv_room pkt udp i e =
    let one : (udp.len + 1) % 2 ^ 8 ≡ suc udp.len = ground (arith, i.byte) in rw (e, one) refl

handle_recv_full :
    (pkt : Packet) (udp : Udp)
    → ltb udp.len udp.cap ≡ false
    → handle_recv pkt udp ≡ record {
      udp = record udp { dropped = (udp.dropped + 1) % 2 ^ 8 };
      event_set = false;
      freed = pkt.p ∷ [];
    }
unfolding handle_recv
handle_recv_full pkt udp e = rw e refl

-- What an arrival comes to on the queue.
record Arrived (pkt : Packet) (udp : Udp) (q : List Packet) (h : Handled) : Type 0 where
  pub result : (h.freed ≡ (offer udp.cap pkt q).0) × (contents h.udp ≡ (offer udp.cap pkt q).1)
  pub event : h.event_set ≡ ltb (length q) udp.cap
  pub cap : h.udp.cap ≡ udp.cap
  pub well : IsUdp h.udp

handle_recv_lem :
    (pkt : Packet) (udp : Udp) → IsUdp udp → Arrived pkt udp (contents udp) (handle_recv pkt udp)
handle_recv_lem pkt udp i =
    let count = length-ring udp.cap udp.recv_packets udp.head udp.len in
    elim (Bool-cases (ltb udp.len udp.cap)) [
      | inl e ↦
          subst (Arrived pkt udp (contents udp)) (sym (handle_recv_room pkt udp i e)) (record {
            result =
                rw (count, e)
                  (
                    refl,
                    ring-update udp.cap udp.recv_packets udp.head udp.len pkt i.inside
                        (ground arith),
                  );
            event = rw (count, e) refl;
            cap = refl;
            well = record { pos = i.pos; byte = i.byte; fits = ground arith; inside = i.inside };
          })
      | inr e ↦ subst (Arrived pkt udp (contents udp)) (sym (handle_recv_full pkt udp e)) (record {
        result = rw (count, e) (refl, refl);
        event = rw (count, e) refl;
        cap = refl;
        well = record { pos = i.pos; byte = i.byte; fits = i.fits; inside = i.inside };
      })
    ]

-- What a receiver's step comes to.
record Received (timeout from : Bool) (udp : Udp) (q : List Packet) (r : RecvStep × Udp)
    : Type 0 where
  pub result :
      (r.0 ≡ (take_first timeout from q).0) × (contents r.1 ≡ (take_first timeout from q).1)
  pub cap : r.1.cap ≡ udp.cap
  pub well : IsUdp r.1

abbrev taken : Udp → Udp
taken udp = record udp { head = after_slot udp.cap udp.head; len = udp.len - 1 }

contents-taken :
    (udp : Udp)
    → (udp.len == 0) ≡ false
    → contents udp ≡ udp.recv_packets udp.head ∷ contents (taken udp)
contents-taken udp e =
    let one : udp.len ≡ suc (udp.len - 1) = ground arith in
    ap (ring udp.cap udp.recv_packets udp.head) one

contents-none : (udp : Udp) → (udp.len == 0) ≡ true → contents udp ≡ []
contents-none udp e =
    let none_left : udp.len ≡ 0 = ground arith in
    ap (ring udp.cap udp.recv_packets udp.head) none_left

taken-IsUdp : (udp : Udp) → IsUdp udp → IsUdp (taken udp)
taken-IsUdp udp i = record {
  pos = i.pos;
  byte = i.byte;
  fits = omega (arith, i.fits);
  inside = ground (arith, i.inside, i.pos);
}

recv_loop_some :
    (timeout from : Bool) (udp : Udp)
    → IsUdp udp
    → (udp.len == 0) ≡ false
    → recv_loop timeout from udp
      ≡ ((take_first timeout from (udp.recv_packets udp.head ∷ [])).0, taken udp)
unfolding recv_loop
recv_loop_some timeout from udp i e =
    let one : (udp.head + 1) % 2 ^ 8 ≡ udp.head + 1 = omega (arith, i.byte, i.inside) in
    rw (e, one) refl

recv_loop_none :
    (timeout from : Bool) (udp : Udp)
    → (udp.len == 0) ≡ true
    → recv_loop timeout from udp ≡ ((take_first timeout from []).0, udp)
unfolding recv_loop
recv_loop_none timeout from udp e = rw e refl

recv_loop_lem :
    (timeout from : Bool) (udp : Udp)
    → IsUdp udp
    → Received timeout from udp (contents udp) (recv_loop timeout from udp)
recv_loop_lem timeout from udp i = elim (Bool-cases (udp.len == 0)) [
  | inl e ↦
      subst (Received timeout from udp (contents udp)) (sym (recv_loop_none timeout from udp e))
        (record { result = rw (contents-none udp e) (refl, refl); cap = refl; well = i })
  | inr e ↦
      subst (Received timeout from udp (contents udp)) (sym (recv_loop_some timeout from udp i e))
        (record {
          result = rw (contents-taken udp e) (refl, refl);
          cap = refl;
          well = taken-IsUdp udp i;
        })
]

-- The operations of lwIP and of threads on an open socket, and what each lets out.
pub data Action : Type 0 where
  arrives : Packet → Action
  receives : (timeout from : Bool) → Action

pub data Output : Type 0 where
  frees : List ℕ → Output
  steps : RecvStep → Output

abbrev pub run : List Action → Udp → List Output × Udp
run [] udp = ([], udp)
run (arrives pkt ∷ acts) udp =
    let h = handle_recv pkt udp in let rest = run acts h.udp in (frees h.freed ∷ rest.0, rest.1)
run (receives timeout from ∷ acts) udp =
    let r = recv_loop timeout from udp in let rest = run acts r.1 in (steps r.0 ∷ rest.0, rest.1)

abbrev pub run_queue : (cap : ℕ) → List Action → List Packet → List Output × List Packet
run_queue cap [] q = ([], q)
run_queue cap (arrives pkt ∷ acts) q =
    let h = offer cap pkt q in let rest = run_queue cap acts h.1 in (frees h.0 ∷ rest.0, rest.1)
run_queue cap (receives timeout from ∷ acts) q =
    let r = take_first timeout from q in
    let rest = run_queue cap acts r.1 in (steps r.0 ∷ rest.0, rest.1)

same_run :
    {cap cap' : ℕ} {q q' : List Packet} (acts : List Action)
    → cap ≡ cap'
    → q ≡ q'
    → run_queue cap acts q ≡ run_queue cap' acts q'
same_run acts e f = λ i. run_queue (e i) acts (f i)

-- The outputs of a sequence of arrivals and receptions are those of the queue of bounded length, the
-- ring then holds what the queue holds, and the socket stays well formed.
pub run-run_queue :
    (acts : List Action) (udp : Udp)
    → IsUdp udp
    → ((run acts udp).0 ≡ (run_queue udp.cap acts (contents udp)).0)
      × (contents (run acts udp).1 ≡ (run_queue udp.cap acts (contents udp)).1)
      × IsUdp (run acts udp).1
run-run_queue [] udp i = (refl, refl, i)
run-run_queue (arrives pkt ∷ acts) udp i =
    let a = handle_recv_lem pkt udp i in
    let (outs, list, well) = run-run_queue acts (handle_recv pkt udp).udp a.well in
    let same = same_run acts a.cap a.result.1 in
    (cons_ap (ap frees a.result.0) (outs ∙ ap (λ r. r.0) same), list ∙ ap (λ r. r.1) same, well)
run-run_queue (receives timeout from ∷ acts) udp i =
    let r = recv_loop_lem timeout from udp i in
    let (outs, list, well) = run-run_queue acts (recv_loop timeout from udp).1 r.well in
    let same = same_run acts r.cap r.result.1 in
    (cons_ap (ap steps r.result.0) (outs ∙ ap (λ x. x.0) same), list ∙ ap (λ x. x.1) same, well)

close_loop_lem :
    (n : ℕ) (udp : Udp)
    → IsUdp udp
    → udp.len ≡ n
    → (close_loop n udp).0 ≡ map (λ pkt. pkt.p) (contents udp)
unfolding close_loop
close_loop_lem zero udp i e = sym (ap (map (λ pkt. pkt.p)) (contents-none udp (ground arith)))
close_loop_lem (suc n) udp i e =
    let one : (udp.head + 1) % 2 ^ 8 ≡ udp.head + 1 = omega (arith, i.byte, i.inside) in
    let wrapped : (if leb udp.cap ((udp.head + 1) % 2 ^ 8) then 0 else (udp.head + 1) % 2 ^ 8)
        ≡ after_slot udp.cap udp.head =
      ground (arith, one, i.inside) in
    ap
      (λ at.
        (udp.recv_packets udp.head).p
        ∷ (close_loop n (record udp { head = at; len = udp.len - 1 })).0)
      wrapped
    ∙ cons_ap refl (close_loop_lem n (taken udp) (taken-IsUdp udp i) (omega arith))
    ∙ sym (ap (map (λ pkt. pkt.p)) (contents-taken udp (ground arith)))

-- When an open socket is closed, all packets that it holds are freed, each once, from the oldest on.
pub close_lem :
    (udp : Udp) → IsUdp udp → udp.pcb ≡ true → (close udp).0 ≡ map (λ pkt. pkt.p) (contents udp)
unfolding close
close_lem udp i open_socket =
    let some_room : (udp.cap == 0) ≡ false = ground (arith, i.pos) in
    rw (open_socket, some_room)
      (close_loop_lem udp.len (record udp { pcb = false })
        (record { pos = i.pos; byte = i.byte; fits = i.fits; inside = i.inside }) refl)

-- A new socket with a capacity has an empty queue.
pub new_lem :
    (cap : ℕ) (memory : ℕ → Packet)
    → 0 < cap
    → cap < 2 ^ 8
    → (udp : Udp) × (new cap true memory ≡ socket udp) × IsUdp udp × (contents udp ≡ [])
unfolding new
new_lem cap memory pos small =
    let signed : leb (2 ^ 31) cap ≡ false = ground arith in
    let fits : ltb cap (2 ^ 8) ≡ true = ground arith in
    (
      record { pcb = true; head = 0; len = 0; cap = cap; dropped = 0; recv_packets = memory },
      rw (signed, fits) refl,
      record { pos = pos; byte = small; fits = omega arith; inside = pos },
      refl,
    )
