-- ===== src/Stream/OutputStream.antt =====
-- UE4DevelopmentLibrary/Stream/OutputStream.cpp. Integers and floats are written as bit patterns.
pub mod Writes
use ue4team_project_server.Common.{
  ℕ, ◌+◌, ◌*◌, List, [], ◌∷◌, ◌++◌, length, replicate, ltb, ◌==◌, if◌then◌else◌, Bool, Result, ok,
  ◌>>=◌,
}
use ue4team_project_server.Stream.Bytes.{to_bytes}
use ue4team_project_server.Stream.ByteStream.{ByteStream, u64, load, store}

abbrev pub Writer : Type 0
Writer = ByteStream → Result ByteStream

infixl 5 ◌>>◌
abbrev pub ◌>>◌ : Writer → Writer → Writer
◌>>◌ v w s = v s >>= w

-- What a fresh allocation holds is not specified; no statement depends on this byte.
abbrev uninitialised : ℕ
uninitialised = 0xcd

unfoldable pub new_array : ℕ → List ℕ
new_array n = replicate n uninitialised

unfoldable pub output_stream : ℕ → ByteStream
unfolding new_array
output_stream length = record {
  memory = new_array length;
  buffer_length = length;
  access_offset = 0;
}

unfoldable pub buffer_if_short_realloc_memory : ℕ → Writer
unfolding new_array load store
buffer_if_short_realloc_memory write_size s =
    if ltb s.buffer_length (u64 (s.access_offset + write_size))
    then (do
      old ← load s.memory 0 s.buffer_length
      temp ← store (new_array (u64 (s.buffer_length * 2))) 0 old
      ok (record s { memory = temp; buffer_length = u64 (s.buffer_length * 2) }))
    else ok s

-- The shape of every write: make room, copy, move the offset.
unfoldable pub write_bytes : List ℕ → Writer
unfolding buffer_if_short_realloc_memory store
write_bytes bytes s = do
  t ← buffer_if_short_realloc_memory (length bytes) s
  memory ← store t.memory t.access_offset bytes
  ok (record t { memory = memory; access_offset = u64 (t.access_offset + length bytes) })

abbrev pub write_int8 : ℕ → Writer
write_int8 value = write_bytes (to_bytes 1 value)

abbrev pub write_int16 : ℕ → Writer
write_int16 value = write_bytes (to_bytes 2 value)

abbrev pub write_int32 : ℕ → Writer
write_int32 value = write_bytes (to_bytes 4 value)

abbrev pub write_int64 : ℕ → Writer
write_int64 value = write_bytes (to_bytes 8 value)

abbrev pub write_float32 : ℕ → Writer
write_float32 value = write_bytes (to_bytes 4 value)

abbrev pub write_float64 : ℕ → Writer
write_float64 value = write_bytes (to_bytes 8 value)

abbrev pub write_bool : Bool → Writer
write_bool value = write_int8 (if value then 1 else 0)

-- `c_str` of a string, up to its first zero byte.
abbrev pub until_nul : List ℕ → List ℕ
until_nul [] = []
until_nul (b ∷ bs) = if b == 0 then [] else b ∷ until_nul bs

abbrev pub write_string : List ℕ → Writer
write_string str = write_bytes (until_nul str ++ 0 ∷ [])

abbrev pub write_zero_bytes : ℕ → Writer
write_zero_bytes size = write_bytes (replicate size 0)
