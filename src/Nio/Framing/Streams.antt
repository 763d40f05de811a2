-- ===== src/Nio/Framing/Streams.antt =====
-- A connection as a whole: the bytes of packets, arriving in chunks of any size.
use ue4team_project_server.Common.{
  ℕ, ◌+◌, ◌^◌, ◌≤◌, ◌<◌, ◌≡◌, refl, sym, ap, ◌∙◌, subst, List, [], ◌∷◌, ◌++◌, length, take, drop,
  map, All, true, false, length-append, take-append, take-append_le, drop-append, drop-append_le,
  All-append, take-append-drop, append_assoc, append-nil, Result, ok, ◌>>=◌, arith,
}
use native.Mathlib.Decide.{dec_lt}
use mathlib.Core.List.{map-append}
use ue4team_project_server.Stream.Bytes.{to_bytes}
use ue4team_project_server.Nio.InPacket.{InPacket}
use ue4team_project_server.Nio.Buffer.{Buffer, append}
use ue4team_project_server.Nio.Session.{
  Session, waiting, decode_loop, on_read, process_received, close,
}
use ue4team_project_server.Nio.Framing.Buffers.{Holds, append-After, append_overflow}
use ue4team_project_server.Nio.Framing.Packets.{received}
use ue4team_project_server.Nio.Framing.Decoding.{
  IsStart, join, FramesWithin, Between, decode_loop_delivers,
}

abbrev pub Listening : Session → List ℕ → ℕ → ℕ → Type 0
Listening s tail capacity size = (s.socket ≡ true) × Between s.buffer s.packet tail capacity size

module _ (process_packet : InPacket → Result (Unit {0}))
    (accepts : (p : InPacket) → process_packet p ≡ ok tt) where
  on_read_step :
      (s : Session) (chunk : List ℕ) (b c : Buffer) (q : InPacket) (out : List InPacket)
      → s.socket ≡ true
      → append chunk s.buffer ≡ ok b
      → decode_loop process_packet (b.buffer_length + 1) b s.packet s.processed ≡ waiting c q out
      → on_read process_packet false chunk s
        ≡ ok (record s { buffer = c; packet = q; processed = out })
  unfolding on_read process_received
  on_read_step s chunk b c q out live appended looped = simp (live, appended, looped)

  -- One read hands over the packets that the pending and the new bytes hold as a whole, in order,
  -- and keeps the start of the next one, if the handler accepts every packet, no packet is longer
  -- than the capacity, which is below 2 ^ 15, and the bytes fit into the block.
  pub on_read_delivers :
      (s : Session) (tail chunk tail' : List ℕ) (packets : List (List ℕ)) (capacity size : ℕ)
      → Listening s tail capacity size
      → tail ++ chunk ≡ join packets ++ tail'
      → FramesWithin capacity packets
      → IsStart tail'
      → capacity < 2 ^ 15
      → length tail + length chunk ≤ size
      → (t : Session) × (on_read process_packet false chunk s ≡ ok t)
        × Listening t tail' capacity size
        × (t.processed ≡ s.processed ++ map received packets)
  on_read_delivers s tail chunk tail' packets capacity size (live, between) e fs start small fits =
      let (b, appended, after) =
        append-After s.buffer tail chunk between.holds (omega (arith, between.size_is)) in
      let (c, q, looped, between') =
        decode_loop_delivers process_packet accepts packets tail' b s.packet s.processed
          (b.buffer_length + 1) capacity fs start small (subst (Holds b) e after.holds)
          (after.offset_is ∙ between.at_start) between.ready (omega arith) in
      (
        record s { buffer = c; packet = q; processed = s.processed ++ map received packets },
        on_read_step s chunk b c q (s.processed ++ map received packets) live appended looped,
        (
          live,
          record {
            holds = between'.holds;
            at_start = between'.at_start;
            ready = between'.ready;
            size_is = between'.size_is ∙ after.size_is ∙ between.size_is;
          },
        ),
        refl,
      )

-- The start of the first packet that is still to come, or nothing.
abbrev pub Pending : List ℕ → List (List ℕ) → Type 0
Pending tail [] = tail ≡ []
Pending tail (packet ∷ packets) = length tail < length packet

-- A prefix of the bytes of packets is whole packets and a pending rest.
record Split (x y : List ℕ) (packets : List (List ℕ)) : Type 0 where
  whole : List (List ℕ)
  todo : List (List ℕ)
  tail : List ℕ
  front_is : x ≡ join whole ++ tail
  back_is : tail ++ y ≡ join todo
  all_of : packets ≡ whole ++ todo
  pending : Pending tail todo

split_first :
    (x y packet : List ℕ) (packets : List (List ℕ))
    → x ++ y ≡ packet ++ join packets
    → length packet ≤ length x
    → (x ≡ packet ++ drop (length packet) x) × (drop (length packet) x ++ y ≡ join packets)
split_first x y packet packets e h =
    let n = length packet in
    (
      sym (take-append-drop n x)
          ∙ ap (λ m. m ++ drop n x)
              (sym (take-append_le x y n h)
                ∙ ap (take n) e
                ∙ take-append packet (join packets) n refl),
      sym (drop-append_le x y n h) ∙ ap (drop n) e ∙ drop-append packet (join packets) n refl,
    )

append-eq-nil : (x y : List ℕ) → x ++ y ≡ [] → x ≡ []
append-eq-nil [] y e = refl
append-eq-nil (b ∷ x) y e = cc

split : (x y : List ℕ) (packets : List (List ℕ)) → x ++ y ≡ join packets → Split x y packets
unfolding join
split x y [] e = record {
  whole = [];
  todo = [];
  tail = x;
  front_is = refl;
  back_is = e;
  all_of = refl;
  pending = append-eq-nil x y e;
}
split x y (packet ∷ packets) e = elim (dec_lt (length x) (length packet)) [
  | yes short ↦ record {
    whole = [];
    todo = packet ∷ packets;
    tail = x;
    front_is = refl;
    back_is = e;
    all_of = refl;
    pending = short;
  }
  | no long ↦
      let (ex, ey) = split_first x y packet packets e (omega arith) in
      let r = split (drop (length packet) x) y packets ey in
      record {
        whole = packet ∷ r.whole;
        todo = r.todo;
        tail = r.tail;
        front_is =
            ex ∙ ap (◌++◌ packet) r.front_is ∙ sym (append_assoc packet (join r.whole) r.tail);
        back_is = r.back_is;
        all_of = ap (◌∷◌ packet) r.all_of;
        pending = r.pending;
      }
]

nil-IsStart : IsStart []
unfolding to_bytes
nil-IsStart = record {
  packet = 2 ∷ 0 ∷ [];
  more = 2 ∷ 0 ∷ [];
  frame = record { body = []; led = refl };
  joined = refl;
  shorter = omega arith;
  bounded = omega arith;
}

Pending-IsStart :
    (todo : List (List ℕ)) (tail y : List ℕ) (capacity : ℕ)
    → Pending tail todo
    → tail ++ y ≡ join todo
    → FramesWithin capacity todo
    → capacity < 2 ^ 15
    → IsStart tail
unfolding join
Pending-IsStart [] tail y capacity e joined fs small = subst IsStart (sym e) nil-IsStart
Pending-IsStart (packet ∷ todo) tail y capacity shorter joined (f, fs) small =
    let n = length tail in
    let front : take n packet ≡ tail =
      sym (take-append_le packet (join todo) n (omega arith))
      ∙ ap (take n) (sym joined)
      ∙ take-append tail y n refl in
    record {
      packet = packet;
      more = drop n packet;
      frame = f.0;
      joined = sym (take-append-drop n packet) ∙ ap (λ m. m ++ drop n packet) front;
      shorter = shorter;
      bounded = omega (arith, f.1);
    }

Pending-short :
    (todo : List (List ℕ)) (tail : List ℕ) (capacity : ℕ)
    → Pending tail todo
    → FramesWithin capacity todo
    → length tail ≤ capacity
Pending-short [] tail capacity e fs = omega (arith, ap length e)
Pending-short (packet ∷ todo) tail capacity shorter (f, fs) = omega (arith, f.1)

Pending-nil :
    (todo : List (List ℕ)) (tail : List ℕ)
    → Pending tail todo
    → tail ≡ join todo
    → (tail ≡ []) × (todo ≡ [])
unfolding join
Pending-nil [] tail p e = (p, refl)
Pending-nil (packet ∷ todo) tail p e =
    absurd (omega (arith, ap length e, length-append packet (join todo)))

module _ (process_packet : InPacket → Result (Unit {0}))
    (accepts : (p : InPacket) → process_packet p ≡ ok tt) where
  -- The reads of a connection, one after the other.
  unfoldable pub on_reads : List (List ℕ) → Session → Result Session
  on_reads [] s = ok s
  on_reads (chunk ∷ chunks) s = on_read process_packet false chunk s >>= on_reads chunks

  -- However the bytes of packets are cut into chunks, the handler gets each packet once, whole and
  -- in order, and nothing is left over, if the handler accepts every packet, the session is open
  -- between two reads with the start of the first packet pending, no packet is longer than the
  -- capacity of the packet object, which is below 2 ^ 15, and each chunk fits into the block behind
  -- as many bytes as that capacity.
  pub on_reads_deliver :
      (chunks packets : List (List ℕ)) (s : Session) (tail : List ℕ) (capacity size : ℕ)
      → Listening s tail capacity size
      → tail ++ join chunks ≡ join packets
      → Pending tail packets
      → FramesWithin capacity packets
      → All (λ chunk. capacity + length chunk ≤ size) chunks
      → capacity < 2 ^ 15
      → (t : Session) × (on_reads chunks s ≡ ok t)
        × Listening t [] capacity size
        × (t.processed ≡ s.processed ++ map received packets)
  unfolding on_reads
  on_reads_deliver [] packets s tail capacity size l e pend fs fits small =
      let (et, ep) = Pending-nil packets tail pend (sym (append-nil tail) ∙ unfold join in e) in
      (s, refl, subst (λ m. Listening s m capacity size) et l, rw ep (sym (append-nil s.processed)))
  on_reads_deliver (chunk ∷ chunks) packets s tail capacity size l e pend fs (fit, fits) small =
      let r =
        split (tail ++ chunk) (join chunks) packets
          (append_assoc tail chunk (join chunks) ∙ unfold join in e) in
      let (fw, ft) = All-append _ r.whole r.todo (subst (FramesWithin capacity) r.all_of fs) in
      let start =
        Pending-IsStart r.todo r.tail (join chunks) capacity r.pending r.back_is ft small in
      let (t, et, lt, pt) =
        on_read_delivers process_packet accepts s tail chunk r.tail r.whole capacity size l
          r.front_is fw start small (omega (arith, Pending-short packets tail capacity pend fs)) in
      let (u, eu, lu, pu) =
        on_reads_deliver chunks r.todo t r.tail capacity size lt r.back_is r.pending ft fits
          small in
      (
        u,
        rw et eu,
        lu,
        pu
            ∙ ap (λ m. m ++ map received r.todo) pt
            ∙ append_assoc s.processed (map received r.whole) (map received r.todo)
            ∙ ap (◌++◌ s.processed)
                (sym (map-append received r.whole r.todo) ∙ ap (map received) (sym r.all_of)),
      )

  -- A chunk that does not fit into the block behind the pending bytes closes the connection,
  -- whatever the bytes are, if it is shorter than 2 ^ 32.
  pub on_read_overflow :
      (s : Session) (tail chunk : List ℕ) (capacity size : ℕ)
      → Listening s tail capacity size
      → size < length tail + length chunk
      → length chunk < 2 ^ 32
      → on_read process_packet false chunk s ≡ ok (close s)
  unfolding on_read process_received
  on_read_overflow s tail chunk capacity size (live, between) over small = simp (
    live,
    append_overflow s.buffer tail chunk between.holds (omega (arith, between.size_is)) small,
  )
