-- ===== src/Nio/Buffer.antt =====
-- NioBuffer.hpp: the bytes received and not yet cut into packets, at the start of a block.
use ue4team_project_server.Common.{
  ℕ, ◌+◌, ◌-◌, ◌^◌, List, length, replicate, ltb, if◌then◌else◌, Result, ok, throw, overflow, ◌>>=◌,
}
use ue4team_project_server.Stream.ByteStream.{ByteStream, u64, load, store}

pub record Buffer : Type 0 where
  pub stream : ByteStream
  pub open stream use *
  pub memory_block_size : ℕ

-- The loop leaves `access_offset` as it is; `clear_buffer` stands before it in the constructor.
abbrev pub initialize_buffer : List ℕ → ℕ → Buffer → Buffer
initialize_buffer memory_block memory_block_size b = record {
  stream = record (b.stream) { memory = memory_block; buffer_length = 0 };
  memory_block_size = memory_block_size;
}

unfoldable pub append : List ℕ → Buffer → Result Buffer
append buffer b =
    if ltb b.memory_block_size (u64 (length buffer + b.buffer_length)) then throw overflow else (do
      memory ← store b.memory b.buffer_length buffer
      ok (record b {
        stream = record (b.stream) {
          memory = memory;
          buffer_length = u64 (b.buffer_length + length buffer);
        };
      }))

-- uint64_t subtraction.
abbrev pub sub64 : ℕ → ℕ → ℕ
sub64 a b = u64 (a + 2 ^ 64 - b)

unfoldable pub clear_tail : ℕ → ℕ → List ℕ → Result (List ℕ)
clear_tail buffer_length memory_block_size memory =
    if ltb 0 buffer_length
    then store memory buffer_length (replicate (sub64 memory_block_size buffer_length) 0)
    else ok memory

-- Drops the first `mark_index` bytes and moves the rest to the front.
unfoldable pub mark_read_index : ℕ → Buffer → Result Buffer
mark_read_index mark_index b = do
  rest ← load b.memory mark_index (sub64 b.buffer_length mark_index)
  moved ← store b.memory 0 rest
  memory ← clear_tail (sub64 b.buffer_length mark_index) b.memory_block_size moved
  ok (record b {
    stream = record {
      memory = memory;
      buffer_length = sub64 b.buffer_length mark_index;
      access_offset = 0;
    };
  })

abbrev pub get_receive_length : Buffer → ℕ
get_receive_length b = b.buffer_length

abbrev pub reset_read_offset : Buffer → Buffer
reset_read_offset b = record b { stream = record (b.stream) { access_offset = 0 } }

abbrev pub clear_buffer : Buffer → Buffer
clear_buffer b = record b { stream = record (b.stream) { buffer_length = 0; access_offset = 0 } }
