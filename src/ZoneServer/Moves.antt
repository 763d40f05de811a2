-- ===== src/ZoneServer/Moves.antt =====
-- UE4Model/Server/ZoneServer.cpp: the handlers of movements. Locks are left out: a call runs alone.
use ue4team_project_server.Common.{
  ℕ, not, ◌==◌, Option, none, some, if◌then◌else◌, throw, null_pointer, number_keys,
}
use ue4team_project_server.Common.Calls.{Call, ◌>>=◌, ◌>>◌, return, get, lift}
use ue4team_project_server.Common.Keyed.{find}
use ue4team_project_server.Stream.ByteStream.{ByteStream}
use ue4team_project_server.Stream.InputStream.{Reader, read_int64}
use ue4team_project_server.Server.Client.{in_state}
use ue4team_project_server.Channel.Packets.{value_of}
use ue4team_project_server.ZoneServer.State.{
  confirm, ZoneClient, Character, Monster, Zone, notify_character_rolling, Outgoing, headed, World,
  character_location, monster_action, character_attack, character_wait, character_sprint, chr_at,
  put_chr, zone_of, put_mob, broadcast,
}
use ue4team_project_server.ZoneServer.Requests.{
  Motion, read_motion, MonsterMotion, read_monster_motion, Placed, read_placed,
}
use ue4team_project_server.Zone.Members.{mob_controller_null_value}

abbrev pub receive : {A : Type 0} → Reader A → ByteStream → Call World A
receive reader packet = lift (value_of (reader packet))

abbrev pub if_confirmed : ZoneClient → Call World (Unit {0}) → Call World (Unit {0})
if_confirmed client handler = if in_state confirm client.state then handler else return tt

-- if (chr), with what is done without one.
abbrev pub with_chr :
    Call World (Unit {0})
    → (ℕ → Character → Call World (Unit {0}))
    → Option ℕ
    → Call World (Unit {0})
with_chr missing handler none = missing
with_chr missing handler (some address) = do chr ← chr_at address; handler address chr

-- if (zone) zone->BroadCast(out, oid)
abbrev pub tell_zone : Outgoing → ℕ → Option Zone → Call World (Unit {0})
tell_zone packet oid none = return tt
tell_zone packet oid (some z) = broadcast packet (some oid) z.chrs

abbrev pub tell_others : Outgoing → Character → Call World (Unit {0})
tell_others packet chr = do s ← get; tell_zone packet chr.object_id (zone_of chr s)

abbrev pub at_pose : Motion → Character → Character
at_pose m chr = record chr { location = m.pose.location; rotation = m.pose.rotation }

abbrev pub moved : Motion → ℕ → Character → Call World (Unit {0})
moved m address chr = do
  put_chr address (at_pose m chr)
  tell_others (headed (character_location (at_pose m chr) m.state)) chr

unfoldable pub handle_chr_position_notify : ZoneClient → ByteStream → Call World (Unit {0})
handle_chr_position_notify client packet =
    if_confirmed client
      (do m ← receive read_motion packet; with_chr (return tt) (moved m) client.character)

abbrev pub acting : Motion → Monster → Monster
acting m mob = record mob {
  state = m.state;
  location = m.pose.location;
  rotation = m.pose.rotation;
}

abbrev pub act_in : MonsterMotion → Character → Zone → Option Monster → Call World (Unit {0})
act_in m chr z none = return tt
act_in m chr z (some mob) =
    if z.monster_controller_id == mob_controller_null_value then return tt else (do
      put_mob chr.zone m.mob_id (acting m.motion mob)
      broadcast (headed (monster_action (acting m.motion mob))) (some chr.object_id) z.chrs)

abbrev pub act : MonsterMotion → Character → Option Zone → Call World (Unit {0})
act m chr none = return tt
act m chr (some z) = act_in m chr z (find m.mob_id z.mobs)

abbrev pub monster_acts : MonsterMotion → ℕ → Character → Call World (Unit {0})
monster_acts m address chr = do s ← get; act m chr (zone_of chr s)

-- The client need not be the one that runs the monsters.
unfoldable pub handle_monster_action_notify : ZoneClient → ByteStream → Call World (Unit {0})
handle_monster_action_notify client packet = if_confirmed client (do
  m ← receive read_monster_motion packet
  with_chr (return tt) (monster_acts m) client.character)

abbrev pub must_tell : Outgoing → ℕ → Option Zone → Call World (Unit {0})
must_tell packet oid none = lift (throw null_pointer)
must_tell packet oid (some z) = broadcast packet (some oid) z.chrs

abbrev pub attacks : ℕ → ℕ → Character → Call World (Unit {0})
attacks motion_id address chr = do
  s ← get
  must_tell (headed (character_attack chr motion_id)) chr.object_id (zone_of chr s)

unfoldable pub handle_character_attack_motion : ZoneClient → ByteStream → Call World (Unit {0})
handle_character_attack_motion client packet = do
  m ← receive read_motion packet
  with_chr (lift (throw null_pointer)) (attacks m.state) client.character

abbrev pub waits : Placed → ℕ → Character → Call World (Unit {0})
waits p address chr = if not (p.cid == chr.object_id) then return tt else (do
  put_chr address (record chr { location = p.vector })
  tell_others (headed (character_wait (record chr { location = p.vector }))) chr)

unfoldable pub handle_character_wait : ZoneClient → ByteStream → Call World (Unit {0})
handle_character_wait client packet = do
  p ← receive read_placed packet
  with_chr (return tt) (waits p) client.character

abbrev pub sprints : ℕ → ℕ → Character → Call World (Unit {0})
sprints cid address chr =
    if not (cid == chr.object_id)
    then return tt
    else tell_others (headed (character_sprint chr)) chr

unfoldable pub handle_character_sprint : ZoneClient → ByteStream → Call World (Unit {0})
handle_character_sprint client packet = do
  cid ← receive read_int64 packet
  with_chr (return tt) (sprints cid) client.character

abbrev pub rolls : Placed → ℕ → Character → Call World (Unit {0})
rolls p address chr =
    if p.cid == chr.object_id
    then tell_others (headed (notify_character_rolling chr.object_id p.vector)) chr
    else return tt

unfoldable pub handle_request_rolling : ZoneClient → ByteStream → Call World (Unit {0})
handle_request_rolling client packet = do
  p ← receive read_placed packet
  with_chr (return tt) (rolls p) client.character
