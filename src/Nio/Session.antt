-- ===== src/Nio/Session.antt =====
-- NioSession.hpp: receiving and sending on one socket. The calls of a session are serialised by its
-- strand (reads) and its send mutex, so each is one step.
pub mod Termination
pub mod SendQueue
use ue4team_project_server.Common.{
  ℕ, zero, suc, ◌+◌, Bool, true, false, not, ◌&&◌, ◌||◌, if◌then◌else◌, List, [], ◌∷◌, ◌++◌,
  replicate, Option, none, some, Result, ok, throw, fault, ◌>>=◌,
}
use ue4team_project_server.Stream.ByteStream.{ByteStream}
use ue4team_project_server.Nio.OutPacket.{sent_bytes, copy_out_packet}
use ue4team_project_server.Nio.InPacket.{InPacket, clone, clear}
use ue4team_project_server.Nio.Buffer.{Buffer, append, clear_buffer}
use ue4team_project_server.Nio.Cipher.{decode}

-- `wire` and `processed` record what was handed to async_write and to the handler, in order.
pub record Session : Type 0 where
  pub socket : Bool
  pub buffer : Buffer
  pub packet : InPacket
  pub send_queue : List ByteStream
  pub send_release_queue : List ByteStream
  pub wire : List (List ℕ)
  pub processed : List InPacket

-- How a round of reading ends: waiting for more bytes, or by an exception, which closes the socket.
pub data Ending : Type 0 where
  waiting : Buffer → InPacket → List InPacket → Ending
  failed : List InPacket → Ending
  crashed : Ending
  out_of_fuel : Ending

abbrev pub is_empty {ℓ} : {A : Type ℓ} → List A → Bool
is_empty [] = true
is_empty (x ∷ xs) = false

abbrev pub close : Session → Session
close s = record s { socket = false }

-- `buffer_` and `in_packet_` are emptied.
unfoldable pub clear_session : Session → Result Session
unfolding clear
clear_session s = do
  p ← clear s.packet
  ok (record s { buffer = clear_buffer s.buffer; packet = p })

-- Both specialisations of `Send`. `Encode` of the cipher does nothing.
unfoldable pub send : ByteStream → Bool → Session → Result Session
unfolding sent_bytes
send out_packet immediate s =
    if not s.socket
    then ok s
    else (if immediate || is_empty s.send_queue
        then (do
          bytes ← sent_bytes out_packet
          ok (record s {
            wire = s.wire ++ bytes ∷ [];
            send_release_queue = s.send_release_queue ++ copy_out_packet out_packet ∷ [];
          }))
        else ok (record s { send_queue = s.send_queue ++ copy_out_packet out_packet ∷ [] }))

-- `out` refers to the front of the queue, which `pop_front` destroys before `Send` reads it.
unfoldable pub on_send : Bool → Session → Result Session
on_send ec s =
    if not s.socket
    then ok s
    else (if ec
        then ok (close s)
        else (if is_empty s.send_queue then ok (record s { send_release_queue = [] }) else fault))

abbrev pub finish : Session → Ending → Result Session
finish s (waiting buffer packet processed) =
    ok (record s { buffer = buffer; packet = packet; processed = processed })
finish s (failed processed) = ok (record (close s) { processed = processed })
finish s crashed = fault
finish s out_of_fuel = fault

-- `process_packet` is the handler of the server that the session belongs to.
module _ (process_packet : InPacket → Result (Unit {0})) where
  unfoldable pub decode_loop : ℕ → Buffer → InPacket → List InPacket → Ending
  decode_loop zero buffer packet processed = out_of_fuel
  decode_loop (suc fuel) buffer packet processed = elim (decode buffer packet) [
    | throw _ ↦ failed processed
    | fault ↦ crashed
    | ok (rest, decoded) ↦ elim decoded.has_data [
      | false ↦ waiting rest decoded processed
      | true ↦ elim (clone decoded) [
        | throw _ ↦ failed processed
        | fault ↦ crashed
        | ok sent ↦ elim (process_packet sent) [
          | throw _ ↦ failed (processed ++ sent ∷ [])
          | fault ↦ crashed
          | ok _ ↦ elim (clear decoded) [
            | throw _ ↦ failed (processed ++ sent ∷ [])
            | fault ↦ crashed
            | ok cleared ↦ decode_loop fuel rest cleared (processed ++ sent ∷ [])
          ]
        ]
      ]
    ]
  ]

  -- A packet takes at least one byte, so that the loop ends within the bytes of the buffer. An
  -- exception of `Append` is caught where those of the loop are.
  unfoldable pub process_received : Session → Result Buffer → Result Session
  process_received s (ok b) = finish s (decode_loop (b.buffer_length + 1) b s.packet s.processed)
  process_received s (throw _) = ok (close s)
  process_received s fault = fault

  unfoldable pub on_read : Bool → List ℕ → Session → Result Session
  on_read ec received s =
      if not s.socket
      then ok s
      else (if ec then ok (close s) else process_received s (append received s.buffer))
