-- ===== src/Nio/OutPacket.antt =====
-- NioOutPacket.cpp and Server/UE4OutPacket.hpp.
use ue4team_project_server.Common.{ℕ, List, Result, ok, ◌>>=◌}
use ue4team_project_server.Stream.Bytes.{to_bytes}
use ue4team_project_server.Stream.ByteStream.{
  ByteStream, set_access_offset, load, store, empty_stream, assign,
}
use ue4team_project_server.Stream.OutputStream.{output_stream}

unfoldable pub nio_out_packet : ℕ → ℕ → ByteStream
unfolding output_stream
nio_out_packet access_offset length = record (output_stream length) {
  access_offset = access_offset;
}

-- The first two bytes are kept free for the head.
unfoldable pub ue4_out_packet : ℕ → Result ByteStream
unfolding nio_out_packet set_access_offset
ue4_out_packet length = set_access_offset 2 (nio_out_packet 2 length)

abbrev pub get_length : ByteStream → ℕ
get_length packet = packet.access_offset

-- The head is the length as uint16.
unfoldable pub make_packet_head : ByteStream → Result ByteStream
unfolding store to_bytes
make_packet_head packet = do
  memory ← store packet.memory 0 (to_bytes 2 (get_length packet))
  ok (record packet { memory = memory })

-- What async_write is handed.
unfoldable pub sent_bytes : ByteStream → Result (List ℕ)
unfolding load
sent_bytes packet = load packet.memory 0 (get_length packet)

-- The copy constructor default-constructs the stream and assigns to it, and `operator=` does not copy the
-- offset.
abbrev pub copy_out_packet : ByteStream → ByteStream
copy_out_packet rhs = assign empty_stream rhs
