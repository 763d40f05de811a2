-- ===== src/Nio/Framing/Decoding.antt =====
-- The cipher and the read loop on a buffer whose bytes are packets and the start of one.
use ue4team_project_server.Common.{
  ℕ, zero, suc, ◌^◌, ◌≤◌, ◌<◌, ◌≡◌, refl, sym, ap, ◌∙◌, subst, List, [], ◌∷◌, ◌++◌, length, take,
  drop, map, All, true, false, pos, length-append, take-append, take-append_le, take-append-drop,
  append_assoc, append-nil, Result, ok, arith,
}
use native.Mathlib.Decide.{dec_lt}
use ue4team_project_server.Stream.Bytes.{to_bytes, length-to_bytes}
use ue4team_project_server.Stream.InputStream.Reads.{At, Reads-fixed}
use ue4team_project_server.Nio.InPacket.{InPacket, clone, clear}
use ue4team_project_server.Nio.Buffer.{Buffer, reset_read_offset}
use ue4team_project_server.Nio.Cipher.{get_head, take_packet, decode}
use ue4team_project_server.Nio.Session.{waiting, decode_loop}
use ue4team_project_server.Nio.Framing.Buffers.{Holds, Holds-bound, After, mark-After}
use ue4team_project_server.Nio.Framing.Packets.{
  IsFrame, frame_headed, Ready, Carries, received, initialize_from-Carries, clone-eq-received,
  clear-Ready,
}

-- The capacity of the session's packet object, `NioInPacket(1024)`.
abbrev pub packet_capacity : ℕ
packet_capacity = 1024

read_head :
    (b : Buffer) (n : ℕ) (more : List ℕ)
    → Holds b (to_bytes 2 n ++ more)
    → b.access_offset ≡ 0
    → n < 2 ^ 15
    → get_head b ≡ ok (pos n, record b { stream = record (b.stream) { access_offset = 2 } })
unfolding get_head
read_head b n more h o small =
    let l = length-to_bytes 2 n in
    let long : 2 ≤ b.buffer_length =
      omega (arith, h.received, length-append (to_bytes 2 n) more, l) in
    ground (arith, long, Reads-fixed 2 n (omega arith) (b.stream) more at, l, o)
  where
    at : At (b.stream) (to_bytes 2 n ++ more)
    at = record {
      slack = h.junk;
      unread = ap (λ k. drop k b.memory) o ∙ h.front;
      ends = omega (arith, o, h.received);
      small = omega (arith, h.received, Holds-bound h, h.small);
      within = omega (arith, h.received, Holds-bound h, h.block);
    }

-- A whole packet at the front is taken, and what follows it stays.
pub decode_whole :
    (b : Buffer) (p : InPacket) (packet rest : List ℕ) (capacity : ℕ)
    → IsFrame packet
    → length packet ≤ capacity
    → capacity < 2 ^ 15
    → Holds b (packet ++ rest)
    → b.access_offset ≡ 0
    → Ready p capacity
    → (c : Buffer) × (q : InPacket) × (decode b p ≡ ok (c, q))
      × After c rest 0 b.memory_block_size
      × Carries q packet capacity
unfolding decode take_packet
decode_whole b p packet rest capacity f fits small h o r =
    let n = length packet in
    let headed = frame_headed f in
    let split : packet ++ rest ≡ to_bytes 2 n ++ (f.body ++ rest) =
      ap (λ m. m ++ rest) f.led ∙ append_assoc (to_bytes 2 n) f.body rest in
    let head = read_head b n (f.body ++ rest) (subst (Holds b) split h) o (omega arith) in
    let opened : Buffer = record b { stream = record (b.stream) { access_offset = 2 } } in
    let h' : Holds opened (packet ++ rest) = record {
      junk = h.junk;
      front = h.front;
      received = h.received;
      block = h.block;
      small = h.small;
    } in
    let (q, filled, carries) =
      initialize_from-Carries p capacity b.memory packet (rest ++ h.junk) r
        (h.front ∙ append_assoc packet rest h.junk) (omega arith) fits in
    let (c, marked, after) = mark-After opened packet rest h' in
    let enough : n ≤ b.buffer_length = omega (arith, h.received, length-append packet rest) in
    (c, q, ground (arith, head, filled, marked, enough), after, carries)

-- `tail` is a packet that has not arrived as a whole.
pub record IsStart (tail : List ℕ) : Type 0 where
  pub packet : List ℕ
  pub more : List ℕ
  pub frame : IsFrame packet
  pub joined : packet ≡ tail ++ more
  pub shorter : length tail < length packet
  pub bounded : length packet < 2 ^ 15

start_led :
    (tail : List ℕ) (s : IsStart tail)
    → 2 ≤ length tail
    → tail ≡ to_bytes 2 (length s.packet) ++ drop 2 tail
start_led tail s long =
    let n = length s.packet in
    sym (take-append-drop 2 tail)
    ∙ ap (λ m. m ++ drop 2 tail)
        (sym (take-append_le tail s.more 2 long)
          ∙ ap (take 2) (sym s.joined ∙ s.frame.led)
          ∙ take-append (to_bytes 2 n) s.frame.body 2 (sym (length-to_bytes 2 n)))

-- On the start of a packet `decode` changes nothing.
pub decode_partial :
    (b : Buffer) (p : InPacket) (tail : List ℕ)
    → IsStart tail
    → Holds b tail
    → b.access_offset ≡ 0
    → decode b p ≡ ok (reset_read_offset b, p)
unfolding decode
decode_partial b p tail s h o = elim (dec_lt (length tail) 2) [
  | yes short ↦ unfold get_head in ground (arith, h.received)
  | no long ↦
      let head =
        read_head b (length s.packet) (drop 2 tail)
          (subst (Holds b) (start_led tail s (omega arith)) h) o s.bounded in
      ground (arith, head, s.shorter, h.received)
]

unfoldable pub join : List (List ℕ) → List ℕ
join [] = []
join (packet ∷ packets) = packet ++ join packets

abbrev pub FramesWithin : ℕ → List (List ℕ) → Type 0
FramesWithin limit = All (λ packet. IsFrame packet × (length packet ≤ limit))

-- The session's buffers between two reads.
pub record Between (b : Buffer) (p : InPacket) (tail : List ℕ) (capacity size : ℕ) : Type 0 where
  pub holds : Holds b tail
  pub at_start : b.access_offset ≡ 0
  pub ready : Ready p capacity
  pub size_is : b.memory_block_size ≡ size

module _ (process_packet : InPacket → Result (Unit {0}))
    (accepts : (p : InPacket) → process_packet p ≡ ok tt) where
  decode_loop_waits :
      (fuel : ℕ) (b c : Buffer) (p q : InPacket) (processed : List InPacket)
      → decode b p ≡ ok (c, q)
      → q.has_data ≡ false
      → decode_loop process_packet (suc fuel) b p processed ≡ waiting c q processed
  unfolding decode_loop
  decode_loop_waits fuel b c p q processed e empty = rw (e, decode_loop) (simp empty)

  decode_loop_step :
      (fuel : ℕ) (b c : Buffer) (p q r m : InPacket) (processed : List InPacket)
      → decode b p ≡ ok (c, q)
      → q.has_data ≡ true
      → clone q ≡ ok m
      → clear q ≡ ok r
      → decode_loop process_packet (suc fuel) b p processed
        ≡ decode_loop process_packet fuel c r (processed ++ m ∷ [])
  unfolding decode_loop
  decode_loop_step fuel b c p q r m processed e full cloned cleared =
      rw (e, decode_loop) (rw full (rw (cloned, accepts m, cleared) refl))

  -- The loop hands over every whole packet, in order, and keeps the start of the next one.
  pub decode_loop_delivers :
      (packets : List (List ℕ)) (tail : List ℕ) (b : Buffer) (p : InPacket)
      (processed : List InPacket) (fuel capacity : ℕ)
      → FramesWithin capacity packets
      → IsStart tail
      → capacity < 2 ^ 15
      → Holds b (join packets ++ tail)
      → b.access_offset ≡ 0
      → Ready p capacity
      → b.buffer_length < fuel
      → (c : Buffer) × (q : InPacket) × (decode_loop process_packet fuel b p processed
          ≡ waiting c q (processed ++ map received packets))
        × Between c q tail capacity b.memory_block_size
  unfolding join
  decode_loop_delivers [] tail b p processed zero capacity fs s small h o r lt =
      absurd (omega arith)
  decode_loop_delivers [] tail b p processed (suc fuel) capacity fs s small h o r lt = (
    reset_read_offset b,
    p,
    decode_loop_waits fuel b (reset_read_offset b) p p processed (decode_partial b p tail s h o)
          r.empty
        ∙ ap (waiting (reset_read_offset b) p) (sym (append-nil processed)),
    record {
      holds = record {
        junk = h.junk;
        front = h.front;
        received = h.received;
        block = h.block;
        small = h.small;
      };
      at_start = refl;
      ready = r;
      size_is = refl;
    },
  )
  decode_loop_delivers (f ∷ fs) tail b p processed zero capacity hs s small h o r lt =
      absurd (omega arith)
  decode_loop_delivers (f ∷ fs) tail b p processed (suc fuel) capacity (hf, hfs) s small h o r lt =
      let h' : Holds b (f ++ (join fs ++ tail)) =
        subst (Holds b) (append_assoc f (join fs) tail) h in
      let (c, q, e, after, carries) =
        decode_whole b p f (join fs ++ tail) capacity hf.0 hf.1 small h' o r in
      let (q', cleared, r') = clear-Ready q f capacity carries in
      let (c', q'', e', between) =
        decode_loop_delivers fs tail c q' (processed ++ received f ∷ []) fuel capacity hfs s small
          after.holds after.offset_is r'
          (omega (
            arith,
            after.holds.received,
            h'.received,
            length-append f (join fs ++ tail),
            frame_headed hf.0,
          )) in
      (
        c',
        q'',
        decode_loop_step fuel b c p q q' (received f) processed e carries.full
              (clone-eq-received q f capacity carries) cleared
            ∙ e'
            ∙ ap (waiting c' q'') (append_assoc processed (received f ∷ []) (map received fs)),
        record {
          holds = between.holds;
          at_start = between.at_start;
          ready = between.ready;
          size_is = between.size_is ∙ after.size_is;
        },
      )
