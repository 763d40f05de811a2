-- ===== src/Nio/InPacket.antt =====
-- NioInPacket.cpp: a received packet in an allocation of its own.
use ue4team_project_server.Common.{
  ℕ, Bool, true, false, List, replicate, ltb, ◌==◌, ◌||◌, if◌then◌else◌, Result, ok, throw,
  run_time_error, ◌>>=◌,
}
use ue4team_project_server.Stream.ByteStream.{ByteStream, initialize, load, store}

pub record InPacket : Type 0 where
  pub stream : ByteStream
  pub alloc_buffer_length : ℕ
  pub has_data : Bool

-- What `scalable_malloc` leaves in the block is given; every use clears it first.
abbrev pub in_packet : List ℕ → ℕ → InPacket
in_packet block default_buffer_length = record {
  stream = initialize block default_buffer_length 0;
  alloc_buffer_length = default_buffer_length;
  has_data = false;
}

-- `Initialize`: the packet is the first `length` bytes of the buffer.
unfoldable pub initialize_from : List ℕ → ℕ → InPacket → Result InPacket
initialize_from buffer length p =
    if ltb p.alloc_buffer_length length || length == 0 then throw run_time_error else (do
      bytes ← load buffer 0 length
      memory ← store p.stream.memory 0 bytes
      ok (record p { stream = initialize memory length 0; has_data = true }))

-- The copy owns `buffer_length` bytes.
unfoldable pub clone : InPacket → Result InPacket
clone p = do
  bytes ← load p.stream.memory 0 p.stream.buffer_length
  ok (record {
    stream = initialize bytes p.stream.buffer_length p.stream.access_offset;
    alloc_buffer_length = p.stream.buffer_length;
    has_data = p.has_data;
  })

unfoldable pub clear : InPacket → Result InPacket
clear p = do
  memory ← store p.stream.memory 0 (replicate p.alloc_buffer_length 0)
  ok (record p { stream = initialize memory p.alloc_buffer_length 0; has_data = false })
