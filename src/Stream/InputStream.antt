-- ===== src/Stream/InputStream.antt =====
-- UE4DevelopmentLibrary/Stream/InputStream.cpp. Integers and floats are read as bit patterns.
pub mod Reads
use ue4team_project_server.Common.{
  ℕ, zero, suc, ◌+◌, ◌-◌, List, [], ◌∷◌, drop, ◌==◌, if◌then◌else◌, Result, ok, throw, fault,
}
use ue4team_project_server.Common.{◌>>=◌ as and_then}
use ue4team_project_server.Stream.Bytes.{of_bytes}
use ue4team_project_server.Stream.ByteStream.{ByteStream, u64, stream_valid_check, load}

-- A read gives a value and the stream behind it.
abbrev pub Reader : Type 0 → Type 0
Reader A = ByteStream → Result (A × ByteStream)

infixl 5 ◌>>=◌
abbrev pub ◌>>=◌ : {A B : Type 0} → Reader A → (A → Reader B) → Reader B
◌>>=◌ r k s = and_then (r s) λ p. k p.0 p.1

abbrev pub pure : {A : Type 0} → A → Reader A
pure a s = ok (a, s)

abbrev pub advance : ℕ → ByteStream → ByteStream
advance n s = record s { access_offset = u64 (s.access_offset + n) }

unfoldable pub peek_bytes : ℕ → ByteStream → Result (List ℕ)
unfolding stream_valid_check load
peek_bytes n s =
    and_then (stream_valid_check s.buffer_length s.access_offset n)
      (λ _. load s.memory s.access_offset n)

unfoldable pub read_bytes : ℕ → Reader (List ℕ)
unfolding peek_bytes
read_bytes n s = and_then (peek_bytes n s) (λ bytes. ok (bytes, advance n s))

-- The typed reads differ in their width only.
unfoldable pub peek_fixed : ℕ → ByteStream → Result ℕ
unfolding peek_bytes of_bytes
peek_fixed n s = and_then (peek_bytes n s) (λ bytes. ok (of_bytes bytes))

unfoldable pub read_fixed : ℕ → Reader ℕ
unfolding peek_fixed
read_fixed n s = and_then (peek_fixed n s) (λ value. ok (value, advance n s))

abbrev pub peek_int8 : ByteStream → Result ℕ
peek_int8 = peek_fixed 1

abbrev pub read_int8 : Reader ℕ
read_int8 = read_fixed 1

abbrev pub peek_int16 : ByteStream → Result ℕ
peek_int16 = peek_fixed 2

abbrev pub read_int16 : Reader ℕ
read_int16 = read_fixed 2

abbrev pub peek_int32 : ByteStream → Result ℕ
peek_int32 = peek_fixed 4

abbrev pub read_int32 : Reader ℕ
read_int32 = read_fixed 4

abbrev pub peek_int64 : ByteStream → Result ℕ
peek_int64 = peek_fixed 8

abbrev pub read_int64 : Reader ℕ
read_int64 = read_fixed 8

abbrev pub peek_float32 : ByteStream → Result ℕ
peek_float32 = peek_fixed 4

abbrev pub read_float32 : Reader ℕ
read_float32 = read_fixed 4

abbrev pub peek_float64 : ByteStream → Result ℕ
peek_float64 = peek_fixed 8

abbrev pub read_float64 : Reader ℕ
read_float64 = read_fixed 8

-- It runs to the end of the allocation, not of the buffer, and faults where no byte is zero.
unfoldable pub strlen : List ℕ → Result ℕ
strlen [] = fault
strlen (b ∷ bs) = if b == 0 then ok 0 else and_then (strlen bs) (λ n. ok (suc n))

-- The range of the string ends one byte before the length, which a length of 0 turns around.
unfoldable pub peek_string_of : ℕ → ByteStream → Result (List ℕ)
unfolding stream_valid_check load
peek_string_of str_length s =
    and_then (stream_valid_check s.buffer_length s.access_offset str_length)
      λ _. if str_length == 0 then fault else load s.memory s.access_offset (str_length - 1)

unfoldable pub read_string_of : ℕ → Reader (List ℕ)
unfolding peek_string_of
read_string_of str_length s =
    and_then (peek_string_of str_length s) (λ str. ok (str, advance str_length s))

unfoldable pub peek_string : ByteStream → Result (List ℕ)
unfolding strlen peek_string_of
peek_string s = and_then (strlen (drop s.access_offset s.memory)) (λ n. peek_string_of (n + 1) s)

unfoldable pub read_string : Reader (List ℕ)
unfolding strlen read_string_of
read_string s = and_then (strlen (drop s.access_offset s.memory)) (λ n. read_string_of (n + 1) s)
