-- ===== src/Nio/Framing/Packets.antt =====
-- NioInPacket seen as the packet that it carries, and the packets that the cipher recognises.
use ue4team_project_server.Common.{
  ℕ, ◌≤◌, ◌<◌, ◌≡◌, refl, ap, ◌∙◌, List, [], ◌++◌, length, drop, replicate, true, false,
  length-append, length-drop, length-replicate, ok, arith,
}
use ue4team_project_server.Stream.Bytes.{to_bytes, length-to_bytes}
use ue4team_project_server.Stream.ByteStream.{initialize, load, store}
use ue4team_project_server.Nio.InPacket.{InPacket, initialize_from, clone, clear}
use ue4team_project_server.Nio.Framing.Buffers.{load_eq, store_eq}

-- The first two bytes of a packet are its length.
pub record IsFrame (packet : List ℕ) : Type 0 where
  pub body : List ℕ
  pub led : packet ≡ to_bytes 2 (length packet) ++ body

pub frame_headed : {packet : List ℕ} → IsFrame packet → 2 ≤ length packet
frame_headed {packet} f = omega (
  arith,
  ap length f.led,
  length-append (to_bytes 2 (length packet)) f.body,
  length-to_bytes 2 (length packet),
)

-- An empty packet object with an allocation of `capacity` bytes.
pub record Ready (p : InPacket) (capacity : ℕ) : Type 0 where
  pub size : length p.stream.memory ≡ capacity
  pub alloc : p.alloc_buffer_length ≡ capacity
  pub empty : p.has_data ≡ false

-- A packet object that carries `packet`.
pub record Carries (p : InPacket) (packet : List ℕ) (capacity : ℕ) : Type 0 where
  pub junk : List ℕ
  pub stream_is : p.stream ≡ initialize (packet ++ junk) (length packet) 0
  pub size : length (packet ++ junk) ≡ capacity
  pub alloc : p.alloc_buffer_length ≡ capacity
  pub full : p.has_data ≡ true

-- What the handler receives: a packet object of just the packet's bytes, to be read from the start.
abbrev pub received : List ℕ → InPacket
received packet = record {
  stream = initialize packet (length packet) 0;
  alloc_buffer_length = length packet;
  has_data = true;
}

pub initialize_from-Carries :
    (p : InPacket) (capacity : ℕ) (buffer packet rest : List ℕ)
    → Ready p capacity
    → buffer ≡ packet ++ rest
    → 0 < length packet
    → length packet ≤ capacity
    → (q : InPacket) × (initialize_from buffer (length packet) p ≡ ok q) × Carries q packet capacity
unfolding initialize_from
initialize_from-Carries p capacity buffer packet rest r e lo hi =
    let junk : List ℕ = drop (length packet) p.stream.memory in
    let whole = ap length e ∙ length-append packet rest in
    let loaded : load buffer 0 (length packet) ≡ ok packet =
      load_eq buffer 0 (length packet) packet rest e refl (omega (arith, whole)) in
    let stored : store p.stream.memory 0 packet ≡ ok (packet ++ junk) =
      store_eq p.stream.memory [] packet p.stream.memory 0 refl refl (omega (arith, r.size)) in
    (
      record {
        stream = initialize (packet ++ junk) (length packet) 0;
        alloc_buffer_length = p.alloc_buffer_length;
        has_data = true;
      },
      ground (arith, loaded, stored, r.alloc),
      record {
        junk = junk;
        stream_is = refl;
        size =
            omega (
              arith,
              length-append packet junk,
              length-drop (length packet) p.stream.memory,
              r.size,
            );
        alloc = r.alloc;
        full = refl;
      },
    )

pub clone-eq-received :
    (p : InPacket) (packet : List ℕ) (capacity : ℕ)
    → Carries p packet capacity
    → clone p ≡ ok (received packet)
unfolding clone
clone-eq-received p packet capacity c =
    let loaded : load (packet ++ c.junk) 0 (length packet) ≡ ok packet =
      load_eq (packet ++ c.junk) 0 (length packet) packet c.junk refl refl
        (omega (arith, length-append packet c.junk)) in
    ground (arith, c.stream_is, loaded, c.full)

pub clear-Ready :
    (p : InPacket) (packet : List ℕ) (capacity : ℕ)
    → Carries p packet capacity
    → (q : InPacket) × (clear p ≡ ok q) × Ready q capacity
unfolding clear
clear-Ready p packet capacity c =
    let zeros : List ℕ = replicate p.alloc_buffer_length 0 in
    let lz : length zeros ≡ capacity = length-replicate p.alloc_buffer_length 0 ∙ c.alloc in
    let memory : List ℕ = zeros ++ drop (length zeros) (packet ++ c.junk) in
    let stored : store (packet ++ c.junk) 0 zeros ≡ ok memory =
      store_eq (packet ++ c.junk) [] zeros (packet ++ c.junk) 0 refl refl
        (omega (arith, lz, c.size)) in
    (
      record {
        stream = initialize memory p.alloc_buffer_length 0;
        alloc_buffer_length = p.alloc_buffer_length;
        has_data = false;
      },
      ground (arith, c.stream_is, stored),
      record {
        size = omega (
          arith,
          length-append zeros (drop (length zeros) (packet ++ c.junk)),
          length-drop (length zeros) (packet ++ c.junk),
          lz,
          c.size,
        );
        alloc = c.alloc;
        empty = refl;
      },
    )
