-- ===== src/Tcp/Walk.antt =====
-- A receiver's step of lib/pico/lwip.tcp.c on the linked pbufs takes from the front of a stream.
use micro_lua.Base.{
  ℕ, zero, suc, ◌+◌, ◌-◌, ◌<◌, ◌≡◌, refl, sym, ap, ◌∙◌, inl, inr, Bool, Option, none, some, List,
  [], ◌∷◌, ◌++◌, arith, ◌==◌, length, take, drop, min, Bool-cases, cons_ap, map, last, Distinct,
  last-append-cons,
}
use micro_lua.Thread.Chain.{Chain}
use micro_lua.Tcp.{Tcp, Taken, take_loop, recv_loop, recv_step, RecvStep}
use micro_lua.Tcp.Reads.{pending, IsChain, IsInside, ListTaken, take_list, take_list_lem}

-- The loop over pbufs reads what the loop over their payloads reads, and stops at the same one.
record Walked (next : ℕ → Option ℕ) (payload : ℕ → List ℕ) (l : List ℕ) (r : ListTaken)
    (o : Option Taken) : Type 0 where
  pub t : Taken
  pub before : List ℕ
  pub rest : List ℕ
  pub ran : o ≡ some t
  pub split : before ++ rest ≡ l
  pub chain : Chain next t.rest rest
  pub bytes : t.bytes ≡ r.bytes
  pub off : t.off ≡ r.off
  pub payloads : map payload rest ≡ r.rest

take_loop_lem :
    (rounds len off : ℕ) (h : Option ℕ) (next : ℕ → Option ℕ) (payload : ℕ → List ℕ) (l : List ℕ)
    → Chain next h l
    → length l < rounds
    → Walked next payload l
        (take_list len off (map payload l))
        (take_loop rounds len off h next payload)
unfolding take_loop
take_loop_lem zero len off h next payload l c fuel = absurd (omega arith)
take_loop_lem (suc k) len off h next payload [] c fuel = rw c (record {
  t = record { bytes = []; rest = none; off = off; recved = [] };
  before = [];
  rest = [];
  ran = refl;
  split = refl;
  chain = refl;
  bytes = refl;
  off = refl;
  payloads = refl;
})
take_loop_lem (suc k) len off h next payload (p ∷ l) c fuel =
    let sz = min len (length (payload p) - off) in
    rw (c.0) (elim (Bool-cases (len == 0)) [
      | inl e ↦ rw e (record {
        t = record { bytes = []; rest = some p; off = off; recved = [] };
        before = [];
        rest = p ∷ l;
        ran = refl;
        split = refl;
        chain = (refl, c.1);
        bytes = refl;
        off = refl;
        payloads = refl;
      })
      | inr e ↦ elim (Bool-cases (off + sz == length (payload p))) [
        | inl whole ↦
            (let w = take_loop_lem k (len - sz) 0 (next p) next payload l c.1 (omega arith) in
              rw (e, whole)
                (record {
                  t = record {
                    bytes = take sz (drop off (payload p)) ++ w.t.bytes;
                    rest = w.t.rest;
                    off = w.t.off;
                    recved = sz ∷ w.t.recved;
                  };
                  before = p ∷ w.before;
                  rest = w.rest;
                  ran = rw w.ran refl;
                  split = cons_ap refl w.split;
                  chain = w.chain;
                  bytes = ap (λ x. take sz (drop off (payload p)) ++ x) w.bytes;
                  off = w.off;
                  payloads = w.payloads;
                }))
        | inr part ↦
            rw (e, part)
              (record {
                t = record {
                  bytes = take sz (drop off (payload p));
                  rest = some p;
                  off = off + sz;
                  recved = sz ∷ [];
                };
                before = [];
                rest = p ∷ l;
                ran = refl;
                split = refl;
                chain = (refl, c.1);
                bytes = refl;
                off = refl;
                payloads = refl;
              })
      ]
    ])

Distinct-rest : (xs ys : List ℕ) → Distinct (xs ++ ys) → Distinct ys
Distinct-rest [] ys d = d
Distinct-rest (x ∷ xs) ys d = Distinct-rest xs ys d.1

-- A connection in which some bytes were received and not yet read, in the pbufs of a list.
pub record Holds (tcp : Tcp) (l : List ℕ) (stream : List ℕ) : Type 0 where
  pub chain : Chain tcp.next tcp.recv_head l
  pub ends : tcp.recv_tail ≡ last l
  pub distinct : Distinct l
  pub bytes : pending tcp.recv_off (map tcp.payload l) ≡ stream
  pub inside : IsInside tcp.recv_off (map tcp.payload l)
  pub full : IsChain (map tcp.payload l)

rest_ends :
    (next : ℕ → Option ℕ) (tail h : Option ℕ) (before rest l : List ℕ)
    → before ++ rest ≡ l
    → tail ≡ last l
    → Chain next h rest
    → elim h [ none ↦ none | some x ↦ tail ] ≡ last rest
rest_ends next tail h before [] l split e c = rw c refl
rest_ends next tail h before (y ∷ ys) l split e c =
    rw (c.0) (e ∙ ap last (sym split) ∙ last-append-cons before y ys)

-- What a receiver's step comes to on the stream.
pub record Received (timeout : Bool) (len : ℕ) (tcp : Tcp) (stream : List ℕ)
    (o : Option (RecvStep × Tcp)) : Type 0 where
  pub after : Tcp
  pub rest : List ℕ
  pub ran : o ≡ some (recv_step timeout tcp (take len stream), after)
  pub holds : Holds after rest (drop len stream)

-- A receiver takes from the front of the stream, and the pointers stay right.
pub recv_loop_lem :
    (rounds : ℕ) (timeout : Bool) (len : ℕ) (tcp : Tcp) (l : List ℕ) (stream : List ℕ)
    → Holds tcp l stream
    → length l < rounds
    → Received timeout len tcp stream (recv_loop rounds timeout len tcp)
unfolding recv_loop
recv_loop_lem rounds timeout len tcp l stream i fuel =
    let w =
      take_loop_lem rounds len tcp.recv_off tcp.recv_head tcp.next tcp.payload l i.chain fuel in
    let r = take_list_lem len tcp.recv_off (map tcp.payload l) i.inside i.full in
    let after : Tcp = record tcp {
      recv_head = w.t.rest;
      recv_tail = elim w.t.rest [ none ↦ none | some h ↦ tcp.recv_tail ];
      recv_off = w.t.off;
    } in
    record {
      after = after;
      rest = w.rest;
      ran = rw (w.ran) (
          ap (λ b. some (recv_step timeout tcp b, after))
            (w.bytes ∙ r.bytes ∙ ap (take len) i.bytes));
      holds = record {
        chain = w.chain;
        ends = rest_ends tcp.next tcp.recv_tail w.t.rest w.before w.rest l w.split i.ends w.chain;
        distinct = Distinct-rest w.before w.rest (rw w.split i.distinct);
        bytes = rw (w.off, w.payloads) (r.left ∙ ap (drop len) i.bytes);
        inside = rw (w.off, w.payloads) r.inside;
        full = rw w.payloads r.chain;
      };
    }
