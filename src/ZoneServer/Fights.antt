-- ===== src/ZoneServer/Fights.antt =====
-- UE4Model/Server/ZoneServer.cpp: the handlers of hits. What a hit does is a Python script, which is given
-- the character and the monster by reference; PythonScript::Engine::ReloadExecute lets no exception out.
use ue4team_project_server.Common.{
  ℕ, not, ◌==◌, Option, none, some, if◌then◌else◌, throw, null_pointer, number_keys,
}
use ue4team_project_server.Common.Calls.{Call, ◌>>=◌, ◌>>◌, return, get, lift}
use ue4team_project_server.Common.Keyed.{find}
use ue4team_project_server.Stream.ByteStream.{ByteStream}
use ue4team_project_server.ZoneServer.State.{
  ZoneClient, Character, Monster, Zone, character_type, monster_type, actor_damaged,
  notify_character_dead, headed, headless, World, is_dead, put_chr, zone_of, put_mob, broadcast,
}
use ue4team_project_server.ZoneServer.Requests.{Hit, read_hit}
use ue4team_project_server.ZoneServer.Moves.{receive, with_chr}

-- The scripts AttackMonster and AttackCharacter, given the attack's id.
pub record Scripts : Type 0 where
  pub attack_monster : ℕ → Character → Monster → Character × Monster
  pub attack_character : ℕ → Character → Monster → Character × Monster

-- Monster::State::kDead
abbrev pub dead : ℕ
dead = 2

abbrev pub after_hit : Monster → Monster
after_hit mob = if is_dead mob.hp then record mob { state = dead } else mob

module _ (scripts : Scripts) where
  abbrev pub monster_hit : Hit → ℕ → Option ℕ → Zone → Character × Monster → Call World (Unit {0})
  monster_hit h address zone_id z (chr, mob) = do
    put_chr address chr
    put_mob zone_id h.attacked (after_hit mob)
    broadcast
        (headed (
          actor_damaged character_type chr.object_id monster_type mob.object_id h.attack_id mob.hp))
        none z.chrs

  abbrev pub hit_in : Hit → ℕ → Character → Zone → Option Monster → Call World (Unit {0})
  hit_in h address chr z none = return tt
  hit_in h address chr z (some mob) =
      monster_hit h address chr.zone z (scripts.attack_monster h.attack_id chr mob)

  abbrev pub hit_zone : Hit → ℕ → Character → Option Zone → Call World (Unit {0})
  hit_zone h address chr none = lift (throw null_pointer)
  hit_zone h address chr (some z) = hit_in h address chr z (find h.attacked z.mobs)

  abbrev pub hits : Hit → ℕ → Character → Call World (Unit {0})
  hits h address chr =
      if not (h.attacker == chr.object_id)
      then return tt
      else (do s ← get; hit_zone h address chr (zone_of chr s))

  unfoldable pub handle_character_hit_success : ZoneClient → ByteStream → Call World (Unit {0})
  handle_character_hit_success client packet = do
    h ← receive read_hit packet
    with_chr (lift (throw null_pointer)) (hits h) client.character

  -- The packet of a death is sent without a head.
  abbrev pub character_hit : Hit → ℕ → Option ℕ → Zone → Character × Monster → Call World (Unit {0})
  character_hit h address zone_id z (chr, mob) = do
    put_chr address chr
    put_mob zone_id h.attacker mob
    broadcast
        (headed (
          actor_damaged monster_type mob.object_id character_type chr.object_id h.attack_id chr.hp))
        none z.chrs
    (if is_dead chr.hp
        then broadcast (headless (notify_character_dead h.attacked)) (some h.attacked) z.chrs
        else return tt)

  abbrev pub attacked_in : Hit → ℕ → Character → Zone → Option Monster → Call World (Unit {0})
  attacked_in h address chr z none = return tt
  attacked_in h address chr z (some mob) =
      character_hit h address chr.zone z (scripts.attack_character h.attack_id chr mob)

  abbrev pub attacked_zone : Hit → ℕ → Character → Option Zone → Call World (Unit {0})
  attacked_zone h address chr none = lift (throw null_pointer)
  attacked_zone h address chr (some z) = attacked_in h address chr z (find h.attacker z.mobs)

  abbrev pub attacked : Hit → ℕ → Character → Call World (Unit {0})
  attacked h address chr =
      if is_dead chr.hp
      then return tt
      else (do s ← get; attacked_zone h address chr (zone_of chr s))

  -- The character that is hurt is the client's own, whichever the packet names.
  unfoldable pub handle_monster_attack : ZoneClient → ByteStream → Call World (Unit {0})
  handle_monster_attack client packet = do
    h ← receive read_hit packet
    with_chr (lift (throw null_pointer)) (attacked h) client.character
