-- ===== src/Stream/RoundTrip.antt =====
-- What one side writes the other reads: a reader over the bytes that a writer appended.
use ue4team_project_server.Common.{
  ℕ, ◌+◌, ◌^◌, ◌<◌, ◌≡◌, sym, ap, ◌∙◌, [], ◌++◌, List, length, drop, length-take, take-append-drop,
  drop-append, append_assoc, append-nil, ok, arith,
}
use ue4team_project_server.Stream.ByteStream.{ByteStream, initialize}
use ue4team_project_server.Stream.InputStream.{Reader}
use ue4team_project_server.Stream.InputStream.Reads.{Reads, At}
use ue4team_project_server.Stream.OutputStream.{Writer}
use ue4team_project_server.Stream.OutputStream.Writes.{IsValid, contents, Writes, Written}

-- The bytes of `t`, with the offset where `s` stood.
abbrev pub reopen : ByteStream → ByteStream → ByteStream
reopen s t = initialize t.memory t.access_offset s.access_offset

reopen-At :
    (s t : ByteStream) (bytes : List ℕ)
    → IsValid s
    → s.access_offset + length bytes < 2 ^ 61
    → Written s bytes t
    → At (reopen s t) (bytes ++ [])
reopen-At s t bytes v small (vt, ct, ot) = record {
  slack = slack;
  unread =
      ap (drop s.access_offset) (
        sym (take-append-drop t.access_offset t.memory)
        ∙ ap (λ m. m ++ slack) ct
        ∙ append_assoc (contents s) bytes slack)
      ∙ drop-append (contents s) (bytes ++ slack) s.access_offset
          (omega (arith, length-take s.access_offset s.memory, v.allocated, v.within))
      ∙ ap (λ m. m ++ slack) (sym (append-nil bytes));
  ends = ot ∙ ap (λ m. s.access_offset + length m) (sym (append-nil bytes));
  small = omega (arith, ot);
  within = omega (arith, vt.within, vt.allocated);
}
  where
    slack : List ℕ
    slack = drop t.access_offset t.memory

pub reread :
    {A : Type 0} (w : Writer) (r : Reader A) (bytes : List ℕ) (v : A)
    → Writes w bytes
    → Reads r bytes v
    → (s : ByteStream) → IsValid s
    → s.access_offset + length bytes < 2 ^ 61
    → (t : ByteStream) × (w s ≡ ok t)
      × (r (reopen s t) ≡ ok (v, record (reopen s t) { access_offset = t.access_offset }))
reread w r bytes v hw hr s valid small =
    let (t, e, written) = hw s valid small in
    (
      t,
      e,
      hr (reopen s t) [] (reopen-At s t bytes valid small written)
          ∙ ap (λ n. ok (v, initialize t.memory t.access_offset n)) (sym written.2),
    )
