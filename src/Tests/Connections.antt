-- ===== src/Tests/Connections.antt =====
-- Connections: two packets in three chunks, an overflowing read, and the send queue.
use ue4team_project_server.Nio.Buffer.{Buffer}
use ue4team_project_server.Nio.Session.Termination.{decode_loop-ends}
use ue4team_project_server.Common.{
  ℕ, ◌≡◌, ◌≢◌, refl, true, false, List, [], ◌∷◌, ◌++◌, map, Result, ok, ◌>>=◌, arith,
}
use ue4team_project_server.Stream.Bytes.{to_bytes}
use ue4team_project_server.Stream.ByteStream.{ByteStream, initialize, load}
use ue4team_project_server.Stream.OutputStream.{write_bytes}
use ue4team_project_server.Stream.OutputStream.Writes.{Writes-bytes}
use ue4team_project_server.Nio.InPacket.{InPacket, in_packet}
use ue4team_project_server.Nio.OutPacket.{
  copy_out_packet, ue4_out_packet, make_packet_head, sent_bytes,
}
use ue4team_project_server.Nio.Session.{out_of_fuel, decode_loop, send, Session, close, on_read}
use ue4team_project_server.Nio.Session.SendQueue.{call, sends, calls, calls-send_queue}
use ue4team_project_server.Nio.Framing.Packets.{IsFrame, Carries, received}
use ue4team_project_server.Nio.Framing.Buffers.{Holds, After}
use ue4team_project_server.Nio.Cipher.{decode}
use ue4team_project_server.Nio.Framing.Decoding.{FramesWithin, join}
use ue4team_project_server.Nio.Framing.Streams.{
  Listening, on_reads, on_reads_deliver, on_read_overflow,
}
use ue4team_project_server.Nio.PacketHead.{packet_arrives}

abbrev accept : InPacket → Result (Unit {0})
accept p = ok tt

abbrev idle : Session
idle = record {
  socket = true;
  buffer = record {
    stream = initialize (0 ∷ 0 ∷ 0 ∷ 0 ∷ 0 ∷ 0 ∷ 0 ∷ 0 ∷ []) 0 0;
    memory_block_size = 8;
  };
  packet = in_packet (0 ∷ 0 ∷ 0 ∷ 0 ∷ []) 4;
  send_queue = [];
  send_release_queue = [];
  wire = [];
  processed = [];
}

idle-Listening : Listening idle [] 4 8
idle-Listening = (
  refl,
  record {
    holds = record {
      junk = 0 ∷ 0 ∷ 0 ∷ 0 ∷ 0 ∷ 0 ∷ 0 ∷ 0 ∷ [];
      front = refl;
      received = refl;
      block = refl;
      small = omega arith;
    };
    at_start = refl;
    ready = record { size = refl; alloc = refl; empty = refl };
    size_is = refl;
  },
)

abbrev two_packets : List (List ℕ)
two_packets = (4 ∷ 0 ∷ 7 ∷ 9 ∷ []) ∷ (3 ∷ 0 ∷ 5 ∷ []) ∷ []

first-IsFrame : IsFrame (4 ∷ 0 ∷ 7 ∷ 9 ∷ [])
unfolding to_bytes
first-IsFrame = record { body = 7 ∷ 9 ∷ []; led = refl }

second-IsFrame : IsFrame (3 ∷ 0 ∷ 5 ∷ [])
unfolding to_bytes
second-IsFrame = record { body = 5 ∷ []; led = refl }

two_packets-Frames : FramesWithin 4 two_packets
two_packets-Frames = ((first-IsFrame, omega arith), ((second-IsFrame, omega arith), tt))

abbrev three_chunks : List (List ℕ)
three_chunks = (4 ∷ []) ∷ (0 ∷ 7 ∷ []) ∷ (9 ∷ 3 ∷ 0 ∷ 5 ∷ []) ∷ []

chunks_join : [] ++ join three_chunks ≡ join two_packets
unfolding join
chunks_join = refl

on_reads_deliver_example :
    (t : Session) × (on_reads accept (λ p. refl) three_chunks idle ≡ ok t)
    × Listening t [] 4 8
    × (t.processed ≡ idle.processed ++ map received two_packets)
on_reads_deliver_example =
    on_reads_deliver accept (λ p. refl) three_chunks two_packets idle [] 4 8 idle-Listening
      chunks_join (omega arith) two_packets-Frames (omega arith, (omega arith, (omega arith, tt)))
      (omega arith)

on_read_overflow_example :
    on_read accept false (1 ∷ 2 ∷ 3 ∷ 4 ∷ 5 ∷ 6 ∷ 7 ∷ 8 ∷ 9 ∷ []) idle ≡ ok (close idle)
on_read_overflow_example =
    on_read_overflow accept (λ p. refl) idle [] (1 ∷ 2 ∷ 3 ∷ 4 ∷ 5 ∷ 6 ∷ 7 ∷ 8 ∷ 9 ∷ []) 4 8
      idle-Listening (omega arith) (omega arith)

-- The packet with the bytes 5 and 6, and one byte behind it.
abbrev arrived : Buffer
arrived = record {
  stream = initialize (to_bytes 2 4 ++ 5 ∷ 6 ∷ 9 ∷ 0 ∷ []) 5 0;
  memory_block_size = 6;
}

abbrev empty_packet : InPacket
empty_packet = in_packet (0 ∷ 0 ∷ 0 ∷ 0 ∷ []) 4

arrived-Holds : Holds arrived ((to_bytes 2 4 ++ 5 ∷ 6 ∷ []) ++ 9 ∷ [])
unfolding to_bytes
arrived-Holds = record {
  junk = 0 ∷ [];
  front = refl;
  received = refl;
  block = refl;
  small = omega arith;
}

packet_arrives_example :
    ((ue4_out_packet 64 >>= write_bytes (5 ∷ 6 ∷ []) >>= make_packet_head >>= sent_bytes)
      ≡ ok (to_bytes 2 4 ++ 5 ∷ 6 ∷ []))
    × ((c : Buffer) × (q : InPacket) × (decode arrived empty_packet ≡ ok (c, q))
        × After c (9 ∷ []) 0 6
        × Carries q (to_bytes 2 4 ++ 5 ∷ 6 ∷ []) 4)
packet_arrives_example =
    packet_arrives 64 (write_bytes (5 ∷ 6 ∷ [])) (5 ∷ 6 ∷ []) (9 ∷ []) 4 arrived empty_packet
      (Writes-bytes (5 ∷ 6 ∷ []) (omega arith)) (omega arith) (omega arith) (omega arith)
      (omega arith) arrived-Holds refl (record { size = refl; alloc = refl; empty = refl })

abbrev small_packet : ByteStream
small_packet = initialize (3 ∷ 0 ∷ 8 ∷ 0 ∷ []) 4 3

small_packet_sent : sent_bytes small_packet ≡ ok (3 ∷ 0 ∷ 8 ∷ [])
unfolding sent_bytes load
small_packet_sent = refl

abbrev idle_after : Session
idle_after = record idle {
  wire = (3 ∷ 0 ∷ 8 ∷ []) ∷ (3 ∷ 0 ∷ 8 ∷ []) ∷ [];
  send_release_queue = copy_out_packet small_packet ∷ copy_out_packet small_packet ∷ [];
}

idle_sends :
    calls accept (sends small_packet false ∷ sends small_packet false ∷ []) idle ≡ ok idle_after
unfolding calls call send sent_bytes load
idle_sends = refl

calls-send_queue_example : idle_after.send_queue ≡ []
calls-send_queue_example =
    calls-send_queue accept (sends small_packet false ∷ sends small_packet false ∷ []) idle
      idle_after refl idle_sends

-- Three bytes of a packet of four, and a packet object without data.
abbrev started : Buffer
started = record {
  stream = record { memory = 4 ∷ 0 ∷ 7 ∷ 0 ∷ []; buffer_length = 3; access_offset = 0 };
  memory_block_size = 4;
}

abbrev answers : InPacket → Result (Unit {0})
answers p = ok tt

decode_loop-ends_example :
    (decode_loop answers 4 started (in_packet (0 ∷ 0 ∷ 0 ∷ 0 ∷ []) 4) [] ≢ out_of_fuel)
    × (decode_loop answers 4 started (in_packet (0 ∷ 0 ∷ 0 ∷ 0 ∷ []) 4) []
        ≡ decode_loop answers 1000 started (in_packet (0 ∷ 0 ∷ 0 ∷ 0 ∷ []) 4) [])
decode_loop-ends_example =
    decode_loop-ends answers 4 1000 started (in_packet (0 ∷ 0 ∷ 0 ∷ 0 ∷ []) 4) [] (omega arith)
      (omega arith) (omega arith) refl
