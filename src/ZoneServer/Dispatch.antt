-- ===== src/ZoneServer/Dispatch.antt =====
-- UE4Model/Server/ZoneServer.cpp: the cases of ProcessPacket that are about movements and fights.
use ue4team_project_server.Common.Calls.{Call}
use ue4team_project_server.Stream.ByteStream.{ByteStream}
use ue4team_project_server.ZoneServer.State.{ZoneClient, World}
use ue4team_project_server.ZoneServer.Moves.{
  handle_chr_position_notify, handle_monster_action_notify, handle_character_attack_motion,
  handle_character_wait, handle_character_sprint, handle_request_rolling,
}
use ue4team_project_server.ZoneServer.Fights.{
  Scripts, handle_character_hit_success, handle_monster_attack,
}

pub data Opcode : Type 0 where
  notify_current_chr_position request_character_rolling notify_monster_action : Opcode
  character_attack character_hit_success monster_hit_character : Opcode
  request_character_wait request_character_sprint : Opcode

unfoldable pub handle : Scripts → Opcode → ZoneClient → ByteStream → Call World (Unit {0})
handle scripts notify_current_chr_position client packet = handle_chr_position_notify client packet
handle scripts request_character_rolling client packet = handle_request_rolling client packet
handle scripts notify_monster_action client packet = handle_monster_action_notify client packet
handle scripts character_attack client packet = handle_character_attack_motion client packet
handle scripts character_hit_success client packet =
    handle_character_hit_success scripts client packet
handle scripts monster_hit_character client packet = handle_monster_attack scripts client packet
handle scripts request_character_wait client packet = handle_character_wait client packet
handle scripts request_character_sprint client packet = handle_character_sprint client packet
