-- ===== src/Nio/Cipher.antt =====
-- Server/UE4PacketCipher.hpp: a packet is led by its length, head included, as int16.
use ue4team_project_server.Common.{
  ℕ, ◌^◌, Bool, ltb, ◌||◌, if◌then◌else◌, ℤ, negsuc, is_negative, to_ℕ, signed, Result, ok, ◌>>=◌,
}
use ue4team_project_server.Stream.InputStream.{read_int16}
use ue4team_project_server.Nio.InPacket.{InPacket, initialize_from}
use ue4team_project_server.Nio.Buffer.{
  Buffer, get_receive_length, mark_read_index, reset_read_offset,
}

unfoldable pub get_head : Buffer → Result (ℤ × Buffer)
get_head buffer =
    if ltb (get_receive_length buffer) 2
    then ok (negsuc 0, buffer)
    else (do r ← read_int16 buffer.stream; ok (signed (2 ^ 15) r.0, record buffer { stream = r.1 }))

abbrev pub get_packet_length : ℤ → ℤ
get_packet_length head = head

-- No packet yet. The comparison with the head is of a length with itself.
abbrev pub incomplete : ℤ → Buffer → Bool
incomplete head buffer =
    let packet_length = get_packet_length head in
    is_negative head
    || ltb (to_ℕ head) (to_ℕ packet_length)
    || ltb (get_receive_length buffer) (to_ℕ packet_length)

unfoldable pub take_packet : ℕ → Buffer → InPacket → Result (Buffer × InPacket)
take_packet packet_length buffer packet = do
  filled ← initialize_from buffer.memory packet_length packet
  rest ← mark_read_index packet_length buffer
  ok (rest, filled)

unfoldable pub decode : Buffer → InPacket → Result (Buffer × InPacket)
decode buffer packet = get_head buffer >>= λ r.
    if incomplete r.0 r.1
    then ok (reset_read_offset r.1, packet)
    else take_packet (to_ℕ (get_packet_length r.0)) r.1 packet
