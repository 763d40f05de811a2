-- ===== src/Stream/ByteStream.antt =====
-- UE4DevelopmentLibrary/Stream/ByteStream.cpp: the state that both kinds of stream share.
use ue4team_project_server.Common.{
  ℕ, ◌+◌, ◌%◌, ◌^◌, List, [], ◌++◌, length, take, drop, ltb, leb, if◌then◌else◌, Result, ok, throw,
  fault, out_of_range, packet_dump,
}

-- `memory` is the allocation that `buffer_` points to. It may be longer than `buffer_length`.
pub record ByteStream : Type 0 where
  pub memory : List ℕ
  pub buffer_length : ℕ
  pub access_offset : ℕ

abbrev pub u64 : ℕ → ℕ
u64 n = n % 2 ^ 64

-- The null buffer of the default constructor is the empty allocation.
abbrev pub empty_stream : ByteStream
empty_stream = record { memory = []; buffer_length = 0; access_offset = 0 }

abbrev pub initialize : List ℕ → ℕ → ℕ → ByteStream
initialize buffer buffer_length access_offset = record {
  memory = buffer;
  buffer_length = buffer_length;
  access_offset = access_offset;
}

-- `operator=` of a stream over another leaves the offset alone.
abbrev pub assign : ByteStream → ByteStream → ByteStream
assign s rhs = record s { memory = rhs.memory; buffer_length = rhs.buffer_length }

unfoldable pub set_access_offset : ℕ → ByteStream → Result ByteStream
set_access_offset offset s =
    if leb s.buffer_length offset
    then throw out_of_range
    else ok (record s { access_offset = offset })

-- The dump in the exception only reads the buffer.
unfoldable pub stream_valid_check : ℕ → ℕ → ℕ → Result (Unit {0})
stream_valid_check buffer_length access_offset access_size =
    if ltb buffer_length (u64 (access_offset + access_size)) then throw packet_dump else ok tt

-- What a copy out of an allocation and one into it do; both fault outside the allocation.
unfoldable pub load : List ℕ → ℕ → ℕ → Result (List ℕ)
load memory offset n =
    if leb (offset + n) (length memory) then ok (take n (drop offset memory)) else fault

unfoldable pub store : List ℕ → ℕ → List ℕ → Result (List ℕ)
store memory offset bytes =
    if leb (offset + length bytes) (length memory)
    then ok (take offset memory ++ (bytes ++ drop (offset + length bytes) memory))
    else fault
