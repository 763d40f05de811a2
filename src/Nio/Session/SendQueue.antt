-- ===== src/Nio/Session/SendQueue.antt =====
-- The send queue of a session over any sequence of its calls.
use ue4team_project_server.Common.{
  ℕ, ◌+◌, ◌≡◌, refl, sym, ◌∙◌, ◌⊎◌, inl, inr, Bool, true, false, List, All, [], ◌∷◌, ◌++◌, map,
  append_assoc, append-nil, length, take, leb, Bool-cases, Result, ok, throw, fault, ◌>>=◌,
  first_ok, arith,
}
use ue4team_project_server.Stream.ByteStream.{ByteStream, load}
use ue4team_project_server.Nio.OutPacket.{sent_bytes, copy_out_packet}
use ue4team_project_server.Nio.InPacket.{InPacket}
use ue4team_project_server.Nio.Buffer.{Buffer, append}
use ue4team_project_server.Nio.Session.{
  Session, Ending, waiting, failed, crashed, out_of_fuel, close, send, on_send, on_read, finish,
  decode_loop, process_received,
}

-- What can happen to a session once it is connected.
pub data Call : Type 0 where
  sends : (out_packet : ByteStream) (immediate : Bool) → Call
  write_completes : (ec : Bool) → Call
  read_completes : (ec : Bool) (received : List ℕ) → Call
  closes : Call

sent_cases :
    (out_packet : ByteStream)
    → ((bytes : List ℕ) × (sent_bytes out_packet ≡ ok bytes)) ⊎ (sent_bytes out_packet ≡ fault)
unfolding sent_bytes load
sent_cases out_packet =
    elim (Bool-cases (leb (0 + out_packet.access_offset) (length out_packet.memory))) [
      | inl e ↦ inl (take out_packet.access_offset out_packet.memory, rw e)
      | inr e ↦ inr (rw e)
    ]

module _ (process_packet : InPacket → Result (Unit {0})) where
  unfoldable pub call : Call → Session → Result Session
  call (sends out_packet immediate) s = send out_packet immediate s
  call (write_completes ec) s = on_send ec s
  call (read_completes ec received) s = on_read process_packet ec received s
  call closes s = ok (close s)

  unfoldable pub calls : List Call → Session → Result Session
  calls [] s = ok s
  calls (c ∷ cs) s = call c s >>= calls cs

  finish-send_queue : (s t : Session) (e : Ending) → finish s e ≡ ok t → t.send_queue ≡ s.send_queue
  finish-send_queue s t (waiting b p out) h = ground arith
  finish-send_queue s t (failed out) h = ground arith
  finish-send_queue s t crashed h = cc
  finish-send_queue s t out_of_fuel h = cc

  received-send_queue :
      (s t : Session) (r : Result Buffer)
      → process_received process_packet s r ≡ ok t
      → t.send_queue ≡ s.send_queue
  unfolding process_received
  received-send_queue s t (ok b) h =
      finish-send_queue s t
        (decode_loop process_packet (b.buffer_length + 1) b s.packet s.processed) h
  received-send_queue s t (throw x) h = ground arith
  received-send_queue s t fault h = cc

  on_read-send_queue :
      (ec : Bool) (received : List ℕ) (s t : Session)
      → on_read process_packet ec received s ≡ ok t
      → t.send_queue ≡ s.send_queue
  unfolding on_read
  on_read-send_queue ec received s t h =
      ground (arith, received-send_queue s t (append received s.buffer))

  call-send_queue :
      (c : Call) (s t : Session) → s.send_queue ≡ [] → call c s ≡ ok t → t.send_queue ≡ []
  unfolding call send on_send
  call-send_queue (sends out_packet immediate) s t e h = elim (sent_cases out_packet) [
    | inl (bytes, sent) ↦ ground (arith, e, sent)
    | inr sent ↦ ground (arith, e, sent)
  ]
  call-send_queue (write_completes ec) s t e h = ground (arith, e)
  call-send_queue (read_completes ec received) s t e h = on_read-send_queue ec received s t h ∙ e
  call-send_queue closes s t e h = ground (arith, e)

  -- A session whose send queue is empty has an empty send queue after any calls that return: no
  -- packet ever waits there for an earlier write.
  pub calls-send_queue :
      (cs : List Call) (s t : Session) → s.send_queue ≡ [] → calls cs s ≡ ok t → t.send_queue ≡ []
  unfolding calls
  calls-send_queue [] s t e h = ground (arith, e)
  calls-send_queue (c ∷ cs) s t e h =
      let (u, first, rest) = first_ok (calls cs) (call c s) h in
      calls-send_queue cs u t (call-send_queue c s u e first) rest

-- On an open session with an empty send queue, sends of packets whose bytes are in their allocations
-- return and write exactly those bytes, in the order of the calls.
pub calls_wire :
    (process_packet : InPacket → Result (Unit {0})) (packets : List (ByteStream × List ℕ))
    (s : Session)
    → s.socket ≡ true
    → s.send_queue ≡ []
    → All (λ p. sent_bytes p.0 ≡ ok p.1) packets
    → (t : Session) × (calls process_packet (map (λ p. sends p.0 false) packets) s ≡ ok t)
      × (t.wire ≡ s.wire ++ map (λ p. p.1) packets)
unfolding calls call send
calls_wire process_packet [] s live e h = (s, refl, sym (append-nil s.wire))
calls_wire process_packet ((p, bytes) ∷ packets) s live e (sent, h) =
    let u : Session = record s {
      wire = s.wire ++ bytes ∷ [];
      send_release_queue = s.send_release_queue ++ copy_out_packet p ∷ [];
    } in
    let (t, et, wt) = calls_wire process_packet packets u live e h in
    let first : send p false s ≡ ok u = ground (arith, live, e, sent) in
    (t, rw first et, wt ∙ append_assoc s.wire (bytes ∷ []) (map (λ p. p.1) packets))

-- The packet that `Send` queues is a copy without its length: nothing of it would be sent.
pub queued_copy_empty : (out_packet : ByteStream) → sent_bytes (copy_out_packet out_packet) ≡ ok []
unfolding sent_bytes load
queued_copy_empty out_packet = ground arith
