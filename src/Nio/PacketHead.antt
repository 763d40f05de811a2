-- ===== src/Nio/PacketHead.antt =====
-- What UE4OutPacket sends: its head, then the bytes written to it; and how the other side takes it.
use ue4team_project_server.Common.{
  ℕ, ◌+◌, ◌^◌, ◌≤◌, ◌<◌, ◌≡◌, refl, sym, ap, ◌∙◌, List, [], ◌++◌, length, drop, length-append,
  length-take, length-drop, drop-append, drop-append_le, take-append-drop, append_assoc, ok, ◌>>=◌,
  arith,
}
use ue4team_project_server.Stream.Bytes.{to_bytes, length-to_bytes}
use ue4team_project_server.Stream.ByteStream.{ByteStream, set_access_offset, store}
use ue4team_project_server.Stream.OutputStream.{Writer, output_stream}
use ue4team_project_server.Stream.OutputStream.Writes.{
  IsValid, contents, output_stream-IsValid, Writes,
}
use ue4team_project_server.Nio.OutPacket.{
  nio_out_packet, ue4_out_packet, get_length, make_packet_head, sent_bytes,
}
use ue4team_project_server.Nio.Buffer.{Buffer}
use ue4team_project_server.Nio.InPacket.{InPacket}
use ue4team_project_server.Nio.Cipher.{decode}
use ue4team_project_server.Nio.Framing.Buffers.{load_eq, store_eq, Holds, After}
use ue4team_project_server.Nio.Framing.Packets.{IsFrame, Ready, Carries}
use ue4team_project_server.Nio.Framing.Decoding.{decode_whole}

ue4_out_packet-IsValid :
    (n : ℕ)
    → 64 ≤ n
    → n ≤ 2048
    → (s : ByteStream) × (ue4_out_packet n ≡ ok s) × IsValid s × (s.access_offset ≡ 2)
unfolding ue4_out_packet set_access_offset nio_out_packet output_stream
ue4_out_packet-IsValid n lo hi =
    let v = output_stream-IsValid n lo hi in
    (
      record (output_stream n) { access_offset = 2 },
      ground arith,
      record { allocated = v.allocated; within = omega arith; room = lo; tight = omega arith },
      refl,
    )

-- The head lands on the first two bytes, and the rest stays as it was written.
head_lands :
    (s : ByteStream)
    → IsValid s
    → 2 ≤ s.access_offset
    → (t : ByteStream) × (make_packet_head s ≡ ok t)
      × (t.access_offset ≡ s.access_offset)
      × (sent_bytes t ≡ ok (to_bytes 2 (get_length s) ++ drop 2 (contents s)))
unfolding make_packet_head sent_bytes
head_lands s v long =
    let head : List ℕ = to_bytes 2 s.access_offset in
    let lh : length head ≡ 2 = length-to_bytes 2 s.access_offset in
    let memory : List ℕ = head ++ drop (length head) s.memory in
    let stored : store s.memory 0 head ≡ ok memory =
      store_eq s.memory [] head s.memory 0 refl refl (omega (arith, lh, v.allocated, v.within)) in
    let rest : List ℕ = drop s.access_offset s.memory in
    let cut : drop 2 s.memory ≡ drop 2 (contents s) ++ rest =
      ap (drop 2) (sym (take-append-drop s.access_offset s.memory))
      ∙ drop-append_le (contents s) rest 2
          (omega (arith, length-take s.access_offset s.memory, v.allocated, v.within)) in
    let bytes : List ℕ = head ++ drop 2 (contents s) in
    let front : memory ≡ bytes ++ rest =
      ap (λ k. head ++ drop k s.memory) lh
      ∙ ap (◌++◌ head) cut
      ∙ sym (append_assoc head (drop 2 (contents s)) rest) in
    let lb : s.access_offset ≡ length bytes = omega (
      arith,
      length-append head (drop 2 (contents s)),
      length-drop 2 (contents s),
      length-take s.access_offset s.memory,
      lh,
      v.allocated,
      v.within,
    ) in
    (
      record s { memory = memory },
      rw stored,
      refl,
      load_eq memory 0 s.access_offset bytes rest front lb
          (omega (arith, ap length front, length-append bytes rest, lb)),
    )

-- What is sent is the length, in 16 bits, and the bytes.
packet_on_wire :
    (n : ℕ) (w : Writer) (bytes : List ℕ)
    → Writes w bytes
    → 64 ≤ n
    → n ≤ 2048
    → length bytes + 2 < 2 ^ 15
    → ((ue4_out_packet n >>= w >>= make_packet_head >>= sent_bytes)
        ≡ ok (to_bytes 2 (length bytes + 2) ++ bytes))
      × IsFrame (to_bytes 2 (length bytes + 2) ++ bytes)
packet_on_wire n w bytes hw lo hi small =
    let (s, made, v, o) = ue4_out_packet-IsValid n lo hi in
    let (t, filled, (vt, ct, ot)) = hw s v (omega (arith, o)) in
    let (u, headed, ou, sent) = head_lands t vt (omega (arith, o, ot)) in
    let total : get_length t ≡ length bytes + 2 = omega (arith, o, ot) in
    let body : drop 2 (contents t) ≡ bytes =
      ap (drop 2) ct
      ∙ drop-append (contents s) bytes 2
          (omega (arith, o, length-take s.access_offset s.memory, v.allocated, v.within)) in
    (
      ground (
        arith,
        made,
        filled,
        headed,
        sent
            ∙ ap (λ m. ok (to_bytes 2 (get_length t) ++ m)) body
            ∙ ap (λ k. ok (to_bytes 2 k ++ bytes)) total,
      ),
      record {
        body = bytes;
        led =
            ap (λ k. to_bytes 2 k ++ bytes)
              (omega (
                arith,
                length-append (to_bytes 2 (length bytes + 2)) bytes,
                length-to_bytes 2 (length bytes + 2),
              ));
      },
    )

-- A packet is made with 64 to 2048 bytes, filled by a writer of any bytes and headed, and with its head it fits
-- the capacity of the other side's packet object, which is below 2 ^ 15. Then its length, in 16 bits, and the
-- bytes are sent; and when they stand at the front of the other side's receive buffer, whatever follows them,
-- the cipher takes just them out of it into the packet object and leaves what follows.
pub packet_arrives :
    (n : ℕ) (w : Writer) (bytes rest : List ℕ) (capacity : ℕ) (b : Buffer) (p : InPacket)
    → Writes w bytes
    → 64 ≤ n
    → n ≤ 2048
    → length bytes + 2 ≤ capacity
    → capacity < 2 ^ 15
    → Holds b ((to_bytes 2 (length bytes + 2) ++ bytes) ++ rest)
    → b.access_offset ≡ 0
    → Ready p capacity
    → ((ue4_out_packet n >>= w >>= make_packet_head >>= sent_bytes)
        ≡ ok (to_bytes 2 (length bytes + 2) ++ bytes))
      × ((c : Buffer) × (q : InPacket) × (decode b p ≡ ok (c, q))
          × After c rest 0 b.memory_block_size
          × Carries q (to_bytes 2 (length bytes + 2) ++ bytes) capacity)
packet_arrives n w bytes rest capacity b p hw lo hi fits small held start r =
    let (sent, frame) = packet_on_wire n w bytes hw lo hi (omega arith) in
    let packet = to_bytes 2 (length bytes + 2) ++ bytes in
    let whole : length packet ≡ length bytes + 2 = omega (
      arith,
      length-append (to_bytes 2 (length bytes + 2)) bytes,
      length-to_bytes 2 (length bytes + 2),
    ) in
    (sent, decode_whole b p packet rest capacity frame (omega (arith, whole)) small held start r)
