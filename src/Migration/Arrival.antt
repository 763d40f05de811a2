-- ===== src/Migration/Arrival.antt =====
-- A packet as the receiver's handler has it: the bytes that the sender wrote, behind a head of two bytes.
use ue4team_project_server.Common.{
  length-append, ℕ, ◌+◌, ◌^◌, ◌<◌, ◌≡◌, sym, ap, ◌∙◌, subst, List, [], ◌∷◌, ◌++◌, length,
  append-nil, ok, arith,
}
use ue4team_project_server.Stream.Bytes.{to_bytes, length-to_bytes}
use ue4team_project_server.Stream.ByteStream.{ByteStream, set_access_offset}
use ue4team_project_server.Stream.InputStream.{Reader, read_int16}
use ue4team_project_server.Stream.InputStream.Reads.{At, At-advance, Reads, Reads-fixed}
use ue4team_project_server.Channel.Packets.{value_of}

-- The stream holds the opcode and the bytes behind it from offset 2 to its end.
pub record Arrived (stream : ByteStream) (opcode : ℕ) (bytes : List ℕ) : Type 0 where
  pub at : At (record stream { access_offset = 2 }) (to_bytes 2 opcode ++ bytes)

abbrev pub body : ByteStream → ByteStream
body stream = record stream { access_offset = 2 }

-- The stream behind the opcode.
abbrev pub opened : ByteStream → ByteStream
opened stream = record stream { access_offset = 4 }

module _ (stream : ByteStream) (opcode : ℕ) (bytes : List ℕ) (a : Arrived stream opcode bytes) where
  pub offset_set : set_access_offset 2 stream ≡ ok (body stream)
  unfolding set_access_offset
  offset_set =
      ground (arith, a.at.ends, length-append (to_bytes 2 opcode) bytes, length-to_bytes 2 opcode)

  pub opcode_read : opcode < 2 ^ 16 → read_int16 (body stream) ≡ ok (opcode, opened stream)
  opcode_read small =
      Reads-fixed 2 opcode (omega arith) (body stream) bytes a.at
      ∙ ap (λ (n : ℕ). ok (opcode, record stream { access_offset = 2 + n }))
          (length-to_bytes 2 opcode)

  opened-At : At (opened stream) bytes
  opened-At =
      subst (λ n. At (record stream { access_offset = 2 + n }) bytes) (length-to_bytes 2 opcode)
        (At-advance (body stream) (to_bytes 2 opcode) bytes a.at)

  -- A reader that takes the front of the bytes.
  pub front_read :
      {A : Type 0} (reader : Reader A) (front rest : List ℕ) (value : A)
      → Reads reader front value
      → bytes ≡ front ++ rest
      → value_of (reader (opened stream)) ≡ ok value
  front_read reader front rest value reads e =
      ap value_of (reads (opened stream) rest (subst (At (opened stream)) e opened-At))

  pub whole_read :
      {A : Type 0} (reader : Reader A) (value : A)
      → Reads reader bytes value
      → value_of (reader (opened stream)) ≡ ok value
  whole_read reader value reads = front_read reader bytes [] value reads (sym (append-nil bytes))

-- A packet object that holds a head and bytes.
abbrev pub framed : List ℕ → ByteStream
framed bytes = record {
  memory = 0 ∷ 0 ∷ bytes;
  buffer_length = length bytes + 2;
  access_offset = 0;
}

pub framed-Arrived :
    (opcode : ℕ) (bytes : List ℕ)
    → length bytes < 2 ^ 63
    → Arrived (framed (to_bytes 2 opcode ++ bytes)) opcode bytes
framed-Arrived opcode bytes h = record {
  at = record {
    slack = [];
    unread = sym (append-nil (to_bytes 2 opcode ++ bytes));
    ends = omega arith;
    small = omega (arith, length-append (to_bytes 2 opcode) bytes, length-to_bytes 2 opcode);
    within = omega arith;
  };
}
