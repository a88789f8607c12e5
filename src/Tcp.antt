-- ===== src/Tcp.antt =====
-- Reception on a connected TCP socket, of lib/pico/lwip.tcp.c. Received pbufs are linked by their
-- next pointers, from recv_head to recv_tail; a pbuf is known by its address, and its memory is that
-- of the functions `next` and `payload`. The events that are set are not written out; the sizes
-- that tcp_recved is called with are results. A result `none` is a loop that ran out of rounds.
pub mod Reads
pub mod Walk
pub mod Stream
use micro_lua.Base.{
  ℕ, zero, suc, ◌+◌, ◌-◌, Bool, true, false, not, Option, none, some, List, [], ◌∷◌, ◌++◌, ◌==◌,
  leb, ltb, if◌then◌else◌, length, take, drop, min, update, ◌>>=◌,
}

-- `err` is 0 for ERR_OK.
pub record Tcp : Type 0 where
  pub recv_head : Option ℕ
  pub recv_tail : Option ℕ
  pub next : ℕ → Option ℕ
  pub payload : ℕ → List ℕ
  pub recv_off : ℕ
  pub err : ℕ
  pub rx_closed : Bool

-- What the loop of `recv_loop` leaves: the bytes that it adds to its buffer, the pbuf and the offset
-- that it ends at, and the sizes that it reports.
pub record Taken : Type 0 where
  pub bytes : List ℕ
  pub rest : Option ℕ
  pub off : ℕ
  pub recved : List ℕ

-- The loop of `recv_loop` from the pbuf `h`. A pbuf that is not read to its end is left only when no
-- more bytes are wanted, and the loop then ends. `pbuf_free_header` on the length of a pbuf, which
-- is taken not to be empty, frees it and returns the next one.
pub take_loop :
    (rounds len off : ℕ)
    → (h : Option ℕ) → (next : ℕ → Option ℕ) → (payload : ℕ → List ℕ) → Option Taken
take_loop zero len off h next payload = none
take_loop (suc k) len off none next payload =
    some (record { bytes = []; rest = none; off = off; recved = [] })
take_loop (suc k) len off (some p) next payload =
    let sz = min len (length (payload p) - off) in
    let part = take sz (drop off (payload p)) in
    let later = take_loop k (len - sz) 0 (next p) next payload in
    if len == 0
    then some (record { bytes = []; rest = some p; off = off; recved = [] })
    else if off + sz == length (payload p)
    then (later >>= λ t.
        some
          (record { bytes = part ++ t.bytes; rest = t.rest; off = t.off; recved = sz ∷ t.recved }))
    else some (record { bytes = part; rest = some p; off = off + sz; recved = sz ∷ [] })

-- What a step of a wait for data does.
pub data RecvStep : Type 0 where
  waits : RecvStep
  data_read : List ℕ → RecvStep
  failed : (err : ℕ) → RecvStep
  timed_out : RecvStep

pub recv_step : (timeout : Bool) → Tcp → (bytes : List ℕ) → RecvStep
recv_step timeout tcp (b ∷ bytes) = data_read (b ∷ bytes)
recv_step timeout tcp [] =
    if tcp.rx_closed
    then data_read []
    else if not (tcp.err == 0)
    then failed tcp.err
    else if timeout
    then timed_out
    else waits

pub recv_loop : (rounds : ℕ) → (timeout : Bool) → (len : ℕ) → Tcp → Option (RecvStep × Tcp)
recv_loop rounds timeout len tcp =
    take_loop rounds len tcp.recv_off tcp.recv_head tcp.next tcp.payload >>= λ taken. some (
      recv_step timeout tcp taken.bytes,
      record tcp {
        recv_head = taken.rest;
        recv_tail = elim taken.rest [ none ↦ none | some h ↦ tcp.recv_tail ];
        recv_off = taken.off;
      },
    )

-- The walk of `handle_recv` to the last pbuf of a chain.
pub last_pbuf : (rounds p : ℕ) → (next : ℕ → Option ℕ) → Option ℕ
last_pbuf zero p next = none
last_pbuf (suc k) p next = elim (next p) [ none ↦ some p | some n ↦ last_pbuf k n next ]

abbrev pub link_pbuf : (p : ℕ) → Tcp → Tcp
link_pbuf p tcp = elim tcp.recv_tail [
  | none ↦ record tcp { recv_head = some p }
  | some t ↦ record tcp { next = update tcp.next t (some p) }
]

-- `handle_recv` on an accepted connection, with the first pbuf of a chain and its tot_len, or none at
-- the end of the stream.
pub handle_recv : (rounds : ℕ) → Option (ℕ × ℕ) → Tcp → Option Tcp
unfolding last_pbuf
handle_recv rounds none tcp = some (record tcp { rx_closed = true })
handle_recv rounds (some (p, tot_len)) tcp =
    if tot_len == 0
    then some tcp
    else (last_pbuf rounds p (link_pbuf p tcp).next >>= λ t.
        some (record (link_pbuf p tcp) { recv_tail = some t }))
