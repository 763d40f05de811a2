-- ===== src/ZoneServer/Others.antt =====
-- What a broadcast sends, and whom a character's position reaches.
use ue4team_project_server.Common.{
  Bool, arith, ℕ, ◌≡◌, refl, sym, ap, ◌∙◌, List, [], ◌∷◌, ◌++◌, map, append-nil, append_assoc,
  Option, none, some, ok, true, false, Bool-cases, ◌⊎◌, inl, inr, if◌then◌else◌, ◌==◌, ==_iff, All,
  number_keys, text_keys,
}
use ue4team_project_server.Common.Keyed.{find, assign, find-assign}
use ue4team_project_server.Stream.ByteStream.{ByteStream}
use ue4team_project_server.Server.Client.{in_state}
use ue4team_project_server.Channel.Packets.{value_of}
use ue4team_project_server.ZoneServer.State.{
  confirm, World, ZoneClient, Character, Zone, Outgoing, headed, character_location, lock,
  client_of, zone_of, is_except, deliver, broadcast, send_to,
}
use ue4team_project_server.ZoneServer.Requests.{Motion, read_motion}
use ue4team_project_server.ZoneServer.Moves.{at_pose, handle_chr_position_notify}

-- The clients that hear of what happens in a zone, but for the client of one character.
abbrev pub listener : Option ZoneClient → List (List ℕ)
listener none = []
listener (some client) = client.uuid ∷ []

abbrev pub heard_by : List (List ℕ × ZoneClient) → Option Character → List (List ℕ)
heard_by clients none = []
heard_by clients (some chr) = listener (lock (λ uuid. find uuid clients) chr.client)

-- Whether the object is the one that is left out.
abbrev pub left_out : Option ℕ → ℕ → Bool
left_out none oid = false
left_out (some out) oid = out == oid

abbrev pub listeners :
    Option ℕ → List (List ℕ × ZoneClient) → List (ℕ × Character) → List (ℕ × ℕ) → List (List ℕ)
listeners except clients characters [] = []
listeners except clients characters ((oid, address) ∷ chrs) =
    let rest = listeners except clients characters chrs in
    if left_out except oid then rest else heard_by clients (find address characters) ++ rest

-- The store has the character.
abbrev pub Stored : List (ℕ × Character) → ℕ × ℕ → Type 0
Stored characters (oid, address) = (chr : Character) × (find address characters ≡ some chr)

abbrev pub with_sent : Outgoing → List (List ℕ) → World → World
with_sent packet uuids s = record s { sent = s.sent ++ map (λ uuid. (uuid, packet)) uuids }

deliver_lem :
    (packet : Outgoing) (address : ℕ) (chr : Character) (s : World)
    → find address s.characters ≡ some chr
    → deliver packet address s
      ≡ (ok tt, with_sent packet (heard_by s.clients (find address s.characters)) s)
deliver_lem packet address chr s e = rw e (told (client_of chr s))
  where
    told : (c : Option ZoneClient) → send_to packet c s ≡ (ok tt, with_sent packet (listener c) s)
    told none = rw (append-nil s.sent)
    told (some client) = refl

map_join : {A B : Type 0} (f : A → B) (xs ys : List A) → map f xs ++ map f ys ≡ map f (xs ++ ys)
map_join f [] ys = refl
map_join f (x ∷ xs) ys = ap (◌∷◌ (f x)) (map_join f xs ys)

with_sent_twice :
    (packet : Outgoing) (xs ys : List (List ℕ)) (s : World)
    → with_sent packet ys (with_sent packet xs s) ≡ with_sent packet (xs ++ ys) s
with_sent_twice packet xs ys s =
    ap (λ (sent : List (List ℕ × Outgoing)). record s { sent = sent })
      (append_assoc s.sent _ _ ∙ ap (◌++◌ s.sent) (map_join (λ uuid. (uuid, packet)) xs ys))

except-left_out : (except : Option ℕ) (oid : ℕ) → is_except except oid ≡ left_out except oid
except-left_out none oid = refl
except-left_out (some out) oid = ground arith

pub broadcast_lem :
    (packet : Outgoing) (except : Option ℕ) (chrs : List (ℕ × ℕ)) (s : World)
    → All (Stored s.characters) chrs
    → broadcast packet except chrs s
      ≡ (ok tt, with_sent packet (listeners except s.clients s.characters chrs) s)
unfolding broadcast
broadcast_lem packet except [] s h = rw (append-nil s.sent)
broadcast_lem packet except ((oid, address) ∷ chrs) s ((chr, e), h) =
    let same = except-left_out except oid in
    elim (Bool-cases (left_out except oid)) [
      | inl out ↦ rw (same ∙ out, out, broadcast_lem packet except chrs s h)
      | inr in_it ↦
          rw (same ∙ in_it, in_it, deliver_lem packet address chr s e)
            (broadcast_lem packet except chrs
                (with_sent packet (heard_by s.clients (find address s.characters)) s) h
              ∙ ap (λ t. (ok tt, t)) (with_sent_twice packet _ _ s))
    ]

module _ (address : ℕ) (old new : Character) (characters : List (ℕ × Character))
    (stored : find address characters ≡ some old) (same : new.client ≡ old.client) where
  heard_after :
      (clients : List (List ℕ × ZoneClient)) (b : ℕ)
      → heard_by clients (find b (assign address new characters))
        ≡ heard_by clients (find b characters)
  heard_after clients b = elim (Bool-cases (address == b)) [
    | inl e ↦
        rw (find-assign address new characters b, e, sym ((==_iff address b).0 e), stored, same)
    | inr e ↦ rw (find-assign address new characters b, e)
  ]

  pub listeners_after :
      (except : Option ℕ) (clients : List (List ℕ × ZoneClient)) (chrs : List (ℕ × ℕ))
      → listeners except clients (assign address new characters) chrs
        ≡ listeners except clients characters chrs
  listeners_after except clients [] = refl
  listeners_after except clients ((oid, b) ∷ chrs) =
      rw (heard_after clients b, listeners_after except clients chrs)

  pub members_after :
      (chrs : List (ℕ × ℕ))
      → All (Stored characters) chrs
      → All (Stored (assign address new characters)) chrs
  members_after [] h = tt
  members_after ((oid, b) ∷ chrs) ((chr, e), h) =
      (here (Bool-cases (address == b)), members_after chrs h)
    where
      here :
          ((address == b) ≡ true) ⊎ ((address == b) ≡ false)
          → Stored (assign address new characters) (oid, b)
      here (inl same_b) = (new, find-assign address new characters b ∙ rw same_b)
      here (inr other) = (chr, find-assign address new characters b ∙ rw (other, e))

-- A confirmed client whose character stands in a zone tells where it is: the character then has that location
-- and rotation, and the client of every other character of the zone, and no other, is sent the position
-- behind what had been sent, in the order of the zone.
pub position_reaches_others :
    (client : ZoneClient) (packet : ByteStream) (m : Motion) (address : ℕ) (chr : Character)
    (z : Zone) (s : World)
    → in_state confirm client.state ≡ true
    → value_of (read_motion packet) ≡ ok m
    → client.character ≡ some address
    → find address s.characters ≡ some chr
    → zone_of chr s ≡ some z
    → All (Stored s.characters) z.chrs
    → let after = record chr { location = m.pose.location; rotation = m.pose.rotation } in
      handle_chr_position_notify client packet s ≡ (
        ok tt,
        record s {
          characters = assign address after s.characters;
          sent =
              s.sent
              ++ map
                  (λ uuid. (uuid, headed (character_location after m.state)))
                  (listeners (some chr.object_id) s.clients s.characters z.chrs);
        },
      )
unfolding handle_chr_position_notify
position_reaches_others client packet m address chr z s confirmed read own stored in_zone members =
    rw (confirmed, read, own, stored, in_zone)
      (broadcast_lem _ (some chr.object_id) z.chrs
          (record s { characters = assign address (at_pose m chr) s.characters })
          (members_after address chr (at_pose m chr) s.characters stored refl z.chrs members)
        ∙ ap
            (λ uuids. (
              ok tt,
              with_sent (headed (character_location (at_pose m chr) m.state)) uuids
                  (record s { characters = assign address (at_pose m chr) s.characters }),
            ))
            (listeners_after address chr (at_pose m chr) s.characters stored refl
              (some chr.object_id) s.clients z.chrs))
