-- ===== src/Nio/Session/Termination.antt =====
-- The read loop of NioSession::OnRead ends.
use ue4team_project_server.Common.{
  ℕ, zero, suc, ◌^◌, ◌≤◌, ◌<◌, ◌≡◌, ◌≢◌, refl, sym, ap, ◌∙◌, inl, inr, true, false, ◌||◌,
  Bool-cases, ltb, List, [], ◌∷◌, ◌++◌, replicate, ℤ, to_ℕ, negsuc, is_negative, signed, Result, ok,
  first_ok, Result-cases, arith,
}
use ue4team_project_server.Common.{◌>>=◌ as and_then}
use ue4team_project_server.Stream.ByteStream.{ByteStream, load, store}
use ue4team_project_server.Stream.InputStream.{read_int16, read_fixed, peek_fixed, advance}
use ue4team_project_server.Nio.InPacket.{InPacket, initialize_from, clone, clear}
use ue4team_project_server.Nio.Buffer.{
  Buffer, mark_read_index, clear_tail, sub64, reset_read_offset,
}
use ue4team_project_server.Nio.Cipher.{get_head, incomplete, take_packet, decode}
use ue4team_project_server.Nio.Session.{out_of_fuel, decode_loop}

read_fixed-keeps :
    (n : ℕ) (s : ByteStream) {r : ℕ × ByteStream}
    → read_fixed n s ≡ ok r
    → r.1.buffer_length ≡ s.buffer_length
unfolding read_fixed
read_fixed-keeps n s e =
    let (value, first, last) = first_ok (λ value. ok (value, advance n s)) (peek_fixed n s) e in
    ground (arith, last)

get_head-keeps :
    (b : Buffer) {r : ℤ × Buffer} → get_head b ≡ ok r → r.1.buffer_length ≡ b.buffer_length
unfolding get_head
get_head-keeps b {r} e = elim (Bool-cases (ltb b.buffer_length 2)) [
  | inl short ↦ let e' : ok (negsuc 0, b) ≡ ok r = rw short at e in ground (arith, e')
  | inr long ↦ read (rw long at e)
]
  where
    read :
        and_then (read_int16 b.stream) (λ v. ok (signed (2 ^ 15) v.0, record b { stream = v.1 }))
          ≡ ok r
        → r.1.buffer_length ≡ b.buffer_length
    read p =
        let (v, first, last) =
          first_ok (λ v. ok (signed (2 ^ 15) v.0, record b { stream = v.1 })) (read_int16 b.stream)
            p in
        ground (arith, last, read_fixed-keeps 2 b.stream first)

initialize_from-ne-zero :
    (memory : List ℕ) (n : ℕ) (p q : InPacket) → initialize_from memory n p ≡ ok q → n ≢ 0
unfolding initialize_from
initialize_from-ne-zero memory n p q e z = ground (arith, e, z)

mark-length :
    (n : ℕ) (b c : Buffer) → mark_read_index n b ≡ ok c → c.buffer_length ≡ sub64 b.buffer_length n
unfolding mark_read_index
mark-length n b c e =
    let (rest, e1, k1) = first_ok _ (load b.memory n (sub64 b.buffer_length n)) e in
    let (moved, e2, k2) = first_ok _ (store b.memory 0 rest) k1 in
    let (memory, e3, k3) =
      first_ok _ (clear_tail (sub64 b.buffer_length n) b.memory_block_size moved) k2 in
    ground (arith, k3)

clear-empties : (p q : InPacket) → clear p ≡ ok q → q.has_data ≡ false
unfolding clear
clear-empties p q e =
    let (memory, e1, k1) =
      first_ok _ (store p.stream.memory 0 (replicate p.alloc_buffer_length 0)) e in
    ground (arith, k1)

-- A decode that gives a packet takes bytes out of the buffer.
decode-shrinks :
    (b c : Buffer) (p q : InPacket)
    → b.buffer_length < 2 ^ 64
    → p.has_data ≡ false
    → q.has_data ≡ true
    → decode b p ≡ ok (c, q)
    → c.buffer_length < b.buffer_length
unfolding decode take_packet
decode-shrinks b c p q small empty full e =
    let (r, head, rest) = first_ok _ (get_head b) e in
    elim (Bool-cases (incomplete r.0 r.1)) [
      | inl short ↦ absurd (kept r (rw short at rest))
      | inr whole ↦ taken r (get_head-keeps b head) whole (rw whole at rest)
    ]
  where
    kept :
        (r : ℤ × Buffer)
        → ◌≡◌ {A = Result (Buffer × InPacket)} (ok (reset_read_offset r.1, p)) (ok (c, q))
        → ⊥
    kept r k = ground (arith, k)

    fits :
        (h : ℤ) (d : Buffer)
        → (is_negative h || ltb (to_ℕ h) (to_ℕ h) || ltb d.buffer_length (to_ℕ h)) ≡ false
        → to_ℕ h ≤ d.buffer_length
    fits h d k = ground arith

    taken :
        (r : ℤ × Buffer)
        → r.1.buffer_length ≡ b.buffer_length
        → incomplete r.0 r.1 ≡ false
        → take_packet (to_ℕ r.0) r.1 p ≡ ok (c, q)
        → c.buffer_length < b.buffer_length
    taken r same whole k =
        let n = to_ℕ r.0 in
        let (filled, k1, rest1) = first_ok _ (initialize_from r.1.memory n p) k in
        let (d, k2, rest2) = first_ok _ (mark_read_index n r.1) rest1 in
        let same_c : d ≡ c = cc in
        let l = mark-length n r.1 d k2 in
        let positive = initialize_from-ne-zero r.1.memory n p filled k1 in
        let l' : c.buffer_length ≡ sub64 r.1.buffer_length n =
          ap (λ x. x.buffer_length) (sym same_c) ∙ l in
        omega (arith, l', same, fits r.0 r.1 whole, positive)

module _ (process_packet : InPacket → Result (Unit {0})) where
  -- The read loop on a packet object without data, with any fuel above the bytes in the buffer: it does not
  -- run out of fuel, so that the loop of the source ends, and it comes to the same for every such fuel.
  pub decode_loop-ends :
      (f g : ℕ) (b : Buffer) (p : InPacket) (processed : List InPacket)
      → b.buffer_length < f
      → b.buffer_length < g
      → b.buffer_length < 2 ^ 64
      → p.has_data ≡ false
      → (decode_loop process_packet f b p processed ≢ out_of_fuel)
        × (decode_loop process_packet f b p processed ≡ decode_loop process_packet g b p processed)
  unfolding decode_loop
  decode_loop-ends zero g b p processed hf hg small empty = absurd (omega arith)
  decode_loop-ends (suc f) zero b p processed hf hg small empty = absurd (omega arith)
  decode_loop-ends (suc f) (suc g) b p processed hf hg small empty =
      elim (Result-cases (decode b p)) [
        | inl e ↦ rw (decode_loop, e) ((λ x. cc), refl)
        | inr (inl (type, e)) ↦ rw (decode_loop, e) ((λ x. cc), refl)
        | inr (inr ((c, q), e)) ↦ elim (Bool-cases q.has_data) [
          | inr none_left ↦ rw (decode_loop, e, none_left) ((λ x. cc), refl)
          | inl full ↦ elim (Result-cases (clone q)) [
            | inl e1 ↦ rw (decode_loop, e, full, e1) ((λ x. cc), refl)
            | inr (inl (type, e1)) ↦ rw (decode_loop, e, full, e1) ((λ x. cc), refl)
            | inr (inr (sent, e1)) ↦ elim (Result-cases (process_packet sent)) [
              | inl e2 ↦ rw (decode_loop, e, full, e1, e2) ((λ x. cc), refl)
              | inr (inl (type, e2)) ↦ rw (decode_loop, e, full, e1, e2) ((λ x. cc), refl)
              | inr (inr (u, e2)) ↦ elim (Result-cases (clear q)) [
                | inl e3 ↦ rw (decode_loop, e, full, e1, e2, e3) ((λ x. cc), refl)
                | inr (inl (type, e3)) ↦ rw (decode_loop, e, full, e1, e2, e3) ((λ x. cc), refl)
                | inr (inr (cleared, e3)) ↦
                    let shrunk = decode-shrinks b c p q small empty full e in
                    rw (decode_loop, e, full, e1, e2, e3)
                      (decode_loop-ends f g c cleared (processed ++ sent ∷ []) (omega arith)
                        (omega arith) (omega arith) (clear-empties q cleared e3))
              ]
            ]
          ]
        ]
      ]
