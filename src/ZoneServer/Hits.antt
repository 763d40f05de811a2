-- ===== src/ZoneServer/Hits.antt =====
-- What a hit on a monster does, and whom it reaches.
use ue4team_project_server.Common.{
  ℕ, ◌^◌, ◌==◌, ◌||◌, ◌≡◌, ap, ◌∙◌, ◌++◌, map, none, some, ok, if◌then◌else◌, ==_iff, All,
  number_keys, text_keys,
}
use ue4team_project_server.Common.Keyed.{find, assign}
use ue4team_project_server.Stream.ByteStream.{ByteStream}
use ue4team_project_server.Channel.Packets.{value_of}
use ue4team_project_server.ZoneServer.State.{
  is_dead, Packet, actor_damaged, character_type, monster_type, Monster, with_mob, World,
  ZoneClient, Character, Zone, headed, lock, zone_of,
}
use ue4team_project_server.ZoneServer.Requests.{Hit, read_hit}
use ue4team_project_server.ZoneServer.Fights.{
  Scripts, dead, monster_hit, handle_character_hit_success,
}
use ue4team_project_server.ZoneServer.Others.{
  Stored, listeners, with_sent, broadcast_lem, members_after, listeners_after,
}

abbrev pub hit_packet : Hit → Character → Monster → Packet
hit_packet h chr mob =
    actor_damaged character_type chr.object_id monster_type mob.object_id h.attack_id mob.hp

-- A client's character hits a monster of its zone, and the script gives what becomes of the two, the client of
-- the character staying the same. Then both are stored, the monster as dead if its hit points are one of the two zeros of a float, and
-- the client of every character of the zone, its own too, is sent the monster's hit points behind what had
-- been sent.
pub hit_is_told :
    (scripts : Scripts) (client : ZoneClient) (packet : ByteStream) (h : Hit) (address : ℕ)
    (chr chr' : Character) (id : ℕ) (z : Zone) (mob mob' : Monster) (s : World)
    → value_of (read_hit packet) ≡ ok h
    → client.character ≡ some address
    → find address s.characters ≡ some chr
    → h.attacker ≡ chr.object_id
    → chr.zone ≡ some id
    → find id s.zones ≡ some z
    → find h.attacked z.mobs ≡ some mob
    → scripts.attack_monster h.attack_id chr mob ≡ (chr', mob')
    → chr'.client ≡ chr.client
    → All (Stored s.characters) z.chrs
    → handle_character_hit_success scripts client packet s ≡ (
      ok tt,
      record s {
        characters = assign address chr' s.characters;
        zones =
            assign id
              (with_mob h.attacked
                (if mob'.hp == 0 || mob'.hp == 2 ^ 31 then record mob' { state = dead } else mob')
                z)
              s.zones;
        sent =
            s.sent
            ++ map
                (λ uuid. (uuid, headed (hit_packet h chr' mob')))
                (listeners none s.clients s.characters z.chrs);
      },
    )
unfolding handle_character_hit_success
hit_is_told scripts client packet h address chr chr' id z mob mob' s read own stored named zone at
      target script same members =
    let in_zone : zone_of chr s ≡ some z = ap (lock (λ i. find i s.zones)) zone ∙ at in
    rw (read, own, stored, (==_iff h.attacker chr.object_id).1 named, in_zone, target, script)
      (ap (λ i. monster_hit scripts h address i z (chr', mob') s) zone
        ∙ rw at (
            broadcast_lem (headed (hit_packet h chr' mob')) none z.chrs (hit_world s)
              (members_after address chr chr' s.characters stored same z.chrs members)
            ∙ ap (λ uuids. (ok tt, with_sent (headed (hit_packet h chr' mob')) uuids (hit_world s)))
                (listeners_after address chr chr' s.characters stored same none s.clients z.chrs)))
  where
    hit_world : World → World
    hit_world s = record s {
      characters = assign address chr' s.characters;
      zones =
          assign id
            (with_mob h.attacked (if is_dead mob'.hp then record mob' { state = dead } else mob') z)
            s.zones;
    }
