-- ===== src/Tcp/Stream.antt =====
-- Reception in lib/pico/lwip.tcp.c is reading from a stream of bytes, however the pbufs and the reads
-- cut it.
use micro_lua.Base.{ℕ, ◌≡◌, true, false, Option, some, List, ◌∷◌, ◌++◌, length, map, has, Distinct}
use micro_lua.Thread.Chain.{Chain}
use micro_lua.Tcp.{Tcp, link_pbuf}
use micro_lua.Tcp.Reads.{flatten, pending, IsChain, IsInside}
use micro_lua.Tcp.Walk.{Holds}

-- A chain of pbufs that lwIP hands over: linked, with no empty pbuf, and none of those in a list.
pub record Arrives (tcp : Tcp) (l : List ℕ) (p : ℕ) (ps : List ℕ) : Type 0 where
  pub chain : Chain tcp.next (tcp.next p) ps
  pub distinct : Distinct (p ∷ ps)
  pub apart : (u : ℕ) → has u l ≡ true → has u (p ∷ ps) ≡ false
  pub full : IsChain (map tcp.payload (p ∷ ps))

-- Linking the chain behind the list.
record Linked (tcp : Tcp) (l : List ℕ) (p : ℕ) (ps : List ℕ) : Type 0 where
  pub chain : Chain (link_pbuf p tcp).next (link_pbuf p tcp).recv_head (l ++ p ∷ ps)
  pub later : Chain (link_pbuf p tcp).next ((link_pbuf p tcp).next p) ps
  pub payload : (link_pbuf p tcp).payload ≡ tcp.payload
  pub off : (link_pbuf p tcp).recv_off ≡ tcp.recv_off

-- The pbufs of an arrival behind those of a list.
record Joined (payload : ℕ → List ℕ) (off : ℕ) (l ps : List ℕ) (stream : List ℕ) : Type 0 where
  pub bytes : pending off (map payload (l ++ ps)) ≡ stream ++ flatten (map payload ps)
  pub inside : IsInside off (map payload (l ++ ps))
  pub full : IsChain (map payload (l ++ ps))

-- What an arrival comes to on the stream.
pub record Arrived (l : List ℕ) (stream : List ℕ) (o : Option Tcp) : Type 0 where
  pub after : Tcp
  pub ran : o ≡ some after
  pub holds : Holds after l stream

abbrev pub tot_len : Tcp → List ℕ → ℕ
tot_len tcp ps = length (flatten (map tcp.payload ps))
