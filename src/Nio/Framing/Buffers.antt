-- ===== src/Nio/Framing/Buffers.antt =====
-- NioBuffer seen as the list of bytes that it holds.
use ue4team_project_server.Common.{
  ℕ, ◌+◌, ◌^◌, ◌≤◌, ◌<◌, ◌≡◌, refl, sym, ap, ◌∙◌, List, [], ◌∷◌, ◌++◌, length, take, drop,
  replicate, length-append, length-drop, length-replicate, take-append, drop-append, drop-drop,
  append_assoc, ok, throw, overflow, arith,
}
use ue4team_project_server.Stream.ByteStream.{load, store}
use ue4team_project_server.Nio.Buffer.{Buffer, append, mark_read_index, clear_tail, sub64}

-- The block starts with `bytes`, and its size is far from the limit of uint64.
pub record Holds (b : Buffer) (bytes : List ℕ) : Type 0 where
  pub junk : List ℕ
  pub front : b.memory ≡ bytes ++ junk
  pub received : b.buffer_length ≡ length bytes
  pub block : length b.memory ≡ b.memory_block_size
  pub small : b.memory_block_size < 2 ^ 32

pub Holds-bound : {b : Buffer} {bytes : List ℕ} → Holds b bytes → length bytes ≤ b.memory_block_size
Holds-bound {b} {bytes} h = omega (arith, h.block, ap length h.front, length-append bytes h.junk)

pub load_eq :
    (memory : List ℕ) (offset n : ℕ) (bytes rest : List ℕ)
    → drop offset memory ≡ bytes ++ rest
    → n ≡ length bytes
    → offset + n ≤ length memory
    → load memory offset n ≡ ok bytes
unfolding load
load_eq memory offset n bytes rest e l h = ground (arith, ap (take n) e, take-append bytes rest n l)

-- A copy over the bytes from the end of `front` on.
pub store_eq :
    (memory front bytes rest : List ℕ) (offset : ℕ)
    → memory ≡ front ++ rest
    → offset ≡ length front
    → length bytes ≤ length rest
    → store memory offset bytes ≡ ok (front ++ (bytes ++ drop (length bytes) rest))
unfolding store
store_eq memory front bytes rest offset e l h =
    let tail : drop (offset + length bytes) memory ≡ drop (length bytes) rest =
      sym (drop-drop offset (length bytes) memory)
      ∙ ap (λ m. drop (length bytes) (drop offset m)) e
      ∙ ap (drop (length bytes)) (drop-append front rest offset l) in
    let fits : offset + length bytes ≤ length memory =
      omega (arith, ap length e, length-append front rest) in
    ground (arith, fits, ap (take offset) e ∙ take-append front rest offset l, tail)

-- What the receive buffer is after a step.
pub record After (b : Buffer) (bytes : List ℕ) (offset size : ℕ) : Type 0 where
  pub holds : Holds b bytes
  pub offset_is : b.access_offset ≡ offset
  pub size_is : b.memory_block_size ≡ size

pub append-After :
    (b : Buffer) (bytes chunk : List ℕ)
    → Holds b bytes
    → length bytes + length chunk ≤ b.memory_block_size
    → (c : Buffer) × (append chunk b ≡ ok c)
      × After c (bytes ++ chunk) b.access_offset b.memory_block_size
unfolding append
append-After b bytes chunk h fits =
    let rest : List ℕ = drop (length chunk) h.junk in
    let memory : List ℕ = bytes ++ (chunk ++ rest) in
    let room : length chunk ≤ length h.junk =
      omega (arith, h.block, ap length h.front, length-append bytes h.junk) in
    let copied : store b.memory b.buffer_length chunk ≡ ok memory =
      store_eq b.memory bytes chunk h.junk b.buffer_length h.front h.received room in
    let total : length memory ≡ b.memory_block_size = omega (
      arith,
      length-append bytes (chunk ++ rest),
      length-append chunk rest,
      length-drop (length chunk) h.junk,
      h.block,
      ap length h.front,
      length-append bytes h.junk,
    ) in
    (
      record {
        stream = record {
          memory = memory;
          buffer_length = b.buffer_length + length chunk;
          access_offset = b.access_offset;
        };
        memory_block_size = b.memory_block_size;
      },
      ground (arith, copied, h.received, h.small),
      record {
        holds = record {
          junk = rest;
          front = sym (append_assoc bytes chunk rest);
          received = omega (arith, h.received, length-append bytes chunk);
          block = total;
          small = h.small;
        };
        offset_is = refl;
        size_is = refl;
      },
    )

-- Bytes that do not fit the block are refused.
pub append_overflow :
    (b : Buffer) (bytes chunk : List ℕ)
    → Holds b bytes
    → b.memory_block_size < length bytes + length chunk
    → length chunk < 2 ^ 32
    → append chunk b ≡ throw overflow
unfolding append
append_overflow b bytes chunk h over small = ground (arith, h.received, h.small, Holds-bound h)

clear_tail_eq :
    (bytes junk : List ℕ) (size : ℕ)
    → length bytes + length junk ≡ size
    → size < 2 ^ 32
    → (m : List ℕ) × (clear_tail (length bytes) size (bytes ++ junk) ≡ ok (bytes ++ m))
      × (length m ≡ length junk)
unfolding clear_tail
clear_tail_eq [] junk size total small = (junk, refl, refl)
clear_tail_eq (b ∷ bs) junk size total small =
    let n : ℕ = sub64 size (length (b ∷ bs)) in
    let zeros : List ℕ = replicate n 0 in
    let l : n ≡ length junk = omega arith in
    let lz : length zeros ≡ length junk = length-replicate n 0 ∙ l in
    (
      zeros ++ drop (length zeros) junk,
      ground (
        arith,
        store_eq ((b ∷ bs) ++ junk) (b ∷ bs) zeros junk (length (b ∷ bs)) refl refl
            (omega (arith, lz)),
      ),
      omega (
        arith,
        length-append zeros (drop (length zeros) junk),
        lz,
        length-drop (length zeros) junk,
      ),
    )

-- Dropping a packet leaves what came behind it.
pub mark-After :
    (b : Buffer) (packet rest : List ℕ)
    → Holds b (packet ++ rest)
    → (c : Buffer) × (mark_read_index (length packet) b ≡ ok c) × After c rest 0 b.memory_block_size
unfolding mark_read_index
mark-After b packet rest h =
    let sum = length-append packet rest in
    let bound = Holds-bound h in
    let left : sub64 b.buffer_length (length packet) ≡ length rest =
      omega (arith, h.received, sum, h.small, bound) in
    let behind : drop (length packet) b.memory ≡ rest ++ h.junk =
      ap (drop (length packet)) (h.front ∙ append_assoc packet rest h.junk)
      ∙ drop-append packet (rest ++ h.junk) (length packet) refl in
    let loaded : load b.memory (length packet) (length rest) ≡ ok rest =
      load_eq b.memory (length packet) (length rest) rest h.junk behind refl
        (omega (arith, sum, h.block, bound)) in
    let moved : store b.memory 0 rest ≡ ok (rest ++ drop (length rest) b.memory) =
      store_eq b.memory [] rest b.memory 0 refl refl (omega (arith, sum, h.block, bound)) in
    let (m, cleared, lm) =
      clear_tail_eq rest (drop (length rest) b.memory) b.memory_block_size
        (omega (arith, length-drop (length rest) b.memory, h.block, sum, bound)) h.small in
    (
      record {
        stream = record { memory = rest ++ m; buffer_length = length rest; access_offset = 0 };
        memory_block_size = b.memory_block_size;
      },
      ground (arith, left, loaded, moved, cleared),
      record {
        holds = record {
          junk = m;
          front = refl;
          received = refl;
          block = omega (
            arith,
            length-append rest m,
            lm,
            length-drop (length rest) b.memory,
            h.block,
            sum,
            bound,
          );
          small = h.small;
        };
        offset_is = refl;
        size_is = refl;
      },
    )
