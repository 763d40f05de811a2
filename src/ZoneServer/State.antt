-- ===== src/ZoneServer/State.antt =====
-- What the handlers of UE4Model/Server/ZoneServer.cpp read and write of clients, characters, zones and
-- monsters, and the broadcast of UE4Model/Model/Zone.cpp. Objects that several hold are in a store: a
-- character is found by its address, which its client and the zone that it is in both have.
use ue4team_project_server.Common.{
  ℕ, ◌^◌, ℤ, Bool, false, ◌||◌, List, [], ◌∷◌, ◌++◌, Option, none, some, ◌==◌, if◌then◌else◌, deref,
  text_keys, number_keys,
}
use ue4team_project_server.Common.Calls.{Call, ◌>>=◌, ◌>>◌, return, get, modify, lift}
use ue4team_project_server.Common.Keyed.{find, assign}
use ue4team_project_server.Model.FVector.{FVector}

-- ClientState::kConfirm
abbrev pub confirm : ℕ
confirm = 1

pub record ZoneClient : Type 0 where
  pub uuid : List ℕ
  pub state : ℤ
  pub character : Option ℕ

-- `zone` is the weak pointer to the zone with this instance id, `client` that to the client with this UUID;
-- `hp` is a float's bit pattern.
pub record Character : Type 0 where
  pub object_id : ℕ
  pub location : FVector
  pub rotation : FVector
  pub hp : ℕ
  pub zone : Option ℕ
  pub client : Option (List ℕ)

pub record Monster : Type 0 where
  pub object_id : ℕ
  pub state : ℕ
  pub location : FVector
  pub rotation : FVector
  pub hp : ℕ

-- `chrs` has the addresses of the characters, in the order in which the map is iterated.
pub record Zone : Type 0 where
  pub monster_controller_id : ℕ
  pub chrs : List (ℕ × ℕ)
  pub mobs : List (ℕ × Monster)

-- ZoneObject::Type of the two sides of a fight.
pub data ObjectType : Type 0 where
  character_type monster_type : ObjectType

-- UE4Model/Packet/PacketGenerator.cpp and HandleRequestRolling: the opcode and the fields in their order.
pub data Packet : Type 0 where
  update_character_position : ℕ → ℕ → FVector → FVector → Packet
  update_monster_action : ℕ → ℕ → FVector → FVector → Packet
  notify_character_attack : ℕ → ℕ → FVector → FVector → Packet
  actor_damaged : ObjectType → ℕ → ObjectType → ℕ → ℕ → ℕ → Packet
  notify_character_wait : ℕ → FVector → Packet
  notify_character_sprint : ℕ → FVector → Packet
  notify_character_rolling : ℕ → FVector → Packet
  notify_character_dead : ℕ → Packet

-- Whether MakePacketHead was called on a packet before it was sent.
pub data Outgoing : Type 0 where
  headed headless : Packet → Outgoing

-- `sent` has the calls of Session::Send, with the UUID of the client whose session it is.
pub record World : Type 0 where
  pub clients : List (List ℕ × ZoneClient)
  pub characters : List (ℕ × Character)
  pub zones : List (ℕ × Zone)
  pub sent : List (List ℕ × Outgoing)

abbrev pub character_location : Character → ℕ → Packet
character_location chr add = update_character_position chr.object_id add chr.location chr.rotation

abbrev pub monster_action : Monster → Packet
monster_action mob = update_monster_action mob.object_id mob.state mob.location mob.rotation

abbrev pub character_attack : Character → ℕ → Packet
character_attack chr id = notify_character_attack chr.object_id id chr.location chr.rotation

abbrev pub character_wait : Character → Packet
character_wait chr = notify_character_wait chr.object_id chr.location

abbrev pub character_sprint : Character → Packet
character_sprint chr = notify_character_sprint chr.object_id chr.location

-- hp == 0.0f, which both zeros are.
abbrev pub is_dead : ℕ → Bool
is_dead hp = hp == 0 || hp == 2 ^ 31

abbrev pub chr_at : ℕ → Call World Character
chr_at address = do s ← get; lift (deref (find address s.characters))

abbrev pub put_chr : ℕ → Character → Call World (Unit {0})
put_chr address chr = modify λ s. record s { characters = assign address chr s.characters }

-- A weak pointer that is locked.
abbrev pub lock {ℓ κ} : {K : Type ℓ} {V : Type κ} → (K → Option V) → Option K → Option V
lock at none = none
lock at (some key) = at key

-- GetZoneFromWeak
abbrev pub zone_of : Character → World → Option Zone
zone_of chr s = lock (λ id. find id s.zones) chr.zone

-- A monster that changes, through the zone of the character.
abbrev pub with_mob : ℕ → Monster → Zone → Zone
with_mob mob_id mob z = record z { mobs = assign mob_id mob z.mobs }

abbrev pub put_in : ℕ → ℕ → Monster → Option Zone → World → World
put_in id mob_id mob none s = s
put_in id mob_id mob (some z) s = record s { zones = assign id (with_mob mob_id mob z) s.zones }

abbrev pub put_mob : Option ℕ → ℕ → Monster → Call World (Unit {0})
put_mob none mob_id mob = return tt
put_mob (some id) mob_id mob = modify λ s. put_in id mob_id mob (find id s.zones) s

abbrev pub send_to : Outgoing → Option ZoneClient → Call World (Unit {0})
send_to packet none = return tt
send_to packet (some client) = modify λ s. record s { sent = s.sent ++ (client.uuid, packet) ∷ [] }

-- GetClientFromWeak
abbrev pub client_of : Character → World → Option ZoneClient
client_of chr s = lock (λ uuid. find uuid s.clients) chr.client

abbrev pub deliver : Outgoing → ℕ → Call World (Unit {0})
deliver packet address = do chr ← chr_at address; s ← get; send_to packet (client_of chr s)

abbrev pub is_except : Option ℕ → ℕ → Bool
is_except none oid = false
is_except (some except) oid = oid == except

-- BroadCast and BroadCastNoLock, without and with an object id that is left out.
unfoldable pub broadcast : Outgoing → Option ℕ → List (ℕ × ℕ) → Call World (Unit {0})
broadcast packet except [] = return tt
broadcast packet except ((oid, address) ∷ chrs) = do
  (if is_except except oid then return tt else deliver packet address)
  broadcast packet except chrs
