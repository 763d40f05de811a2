-- ===== src/ZoneServer/Requests.antt =====
-- UE4Model/Server/ZoneServer.cpp: what the handlers of movements and fights read from a packet, behind
-- its opcode.
use ue4team_project_server.Common.{ℕ}
use ue4team_project_server.Stream.InputStream.{Reader, ◌>>=◌, pure, read_int32, read_int64}
use ue4team_project_server.Model.FVector.{FVector, read_vector}

pub record Pose : Type 0 where
  pub location : FVector
  pub rotation : FVector

abbrev pub read_pose : Reader Pose
read_pose = do lo ← read_vector; ro ← read_vector; pure (record { location = lo; rotation = ro })

-- HandleChrPositionNotify and, with the motion in the place of the state, HandleCharacterAttackMotion
pub record Motion : Type 0 where
  pub state : ℕ
  pub pose : Pose

abbrev pub read_motion : Reader Motion
read_motion = do state ← read_int32; pose ← read_pose; pure (record { state = state; pose = pose })

-- HandleMonsterActionNotify
pub record MonsterMotion : Type 0 where
  pub mob_id : ℕ
  pub motion : Motion

abbrev pub read_monster_motion : Reader MonsterMotion
read_monster_motion = do
  mob_id ← read_int64
  motion ← read_motion
  pure (record { mob_id = mob_id; motion = motion })

-- HandleCharacterHitSuccess and HandleMonsterAttack: the first two ids as they stand in the packet.
pub record Hit : Type 0 where
  pub attacker : ℕ
  pub attacked : ℕ
  pub attack_id : ℕ
  pub pose : Pose

abbrev pub read_hit : Reader Hit
read_hit = do
  attacker ← read_int64
  attacked ← read_int64
  attack_id ← read_int32
  pose ← read_pose
  pure (record { attacker = attacker; attacked = attacked; attack_id = attack_id; pose = pose })

-- HandleCharacterWait and HandleRequestRolling: an object id and a vector.
pub record Placed : Type 0 where
  pub cid : ℕ
  pub vector : FVector

abbrev pub read_placed : Reader Placed
read_placed = do
  cid ← read_int64
  vector ← read_vector
  pure (record { cid = cid; vector = vector })
