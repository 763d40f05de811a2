-- ===== src/ZoneServer/Apart.antt =====
-- What a client's packets about movements and fights leave alone.
use ue4team_project_server.Common.{ℕ, ◌≡◌, ◌≢◌, ap, Option, none, some, number_keys}
use ue4team_project_server.Common.Keyed.{find}
use ue4team_project_server.Common.Calls.{Call, ◌>>=◌}
use ue4team_project_server.Stream.ByteStream.{ByteStream}
use ue4team_project_server.Stream.InputStream.{Reader, read_int64}
use ue4team_project_server.Server.Client.{in_state}
use ue4team_project_server.ZoneServer.State.{
  confirm, World, ZoneClient, Character, Monster, Zone, Outgoing, chr_at,
}
use ue4team_project_server.ZoneServer.Requests.{
  Motion, read_motion, MonsterMotion, read_monster_motion, Placed, read_placed, Hit, read_hit,
}
use ue4team_project_server.ZoneServer.Moves.{
  receive, with_chr, tell_zone, tell_others, must_tell, moved, act_in, act, monster_acts, attacks,
  waits, sprints, rolls, handle_chr_position_notify, handle_monster_action_notify,
  handle_character_attack_motion, handle_character_wait, handle_character_sprint,
  handle_request_rolling,
}
use ue4team_project_server.ZoneServer.Fights.{
  Scripts, monster_hit, hit_in, hit_zone, hits, character_hit, attacked_in, attacked_zone, attacked,
  handle_character_hit_success, handle_monster_attack,
}
use ue4team_project_server.ZoneServer.Dispatch.{
  Opcode, notify_current_chr_position, request_character_rolling, notify_monster_action,
  character_attack, character_hit_success, monster_hit_character, request_character_wait,
  request_character_sprint, handle,
}
use ue4team_project_server.ZoneServer.Spares.{
  sparing, Spares, Spares-bind, Spares-lift, Spares-return, Spares-broadcast, Spares-get, Spares-if,
  population,
}

module _ {a : ℕ} where
  with_chr-Spares :
      (missing : Call World (Unit {0})) (handler : ℕ → Character → Call World (Unit {0}))
      (own : Option ℕ)
      → own ≢ some a
      → Spares a missing
      → ((b : ℕ) (chr : Character) → b ≢ a → Spares a (handler b chr))
      → Spares a (with_chr missing handler own)
  with_chr-Spares missing handler none n p q = p
  with_chr-Spares missing handler (some b) n p q =
      let other : b ≢ a = λ e. n (ap some e) in
      Spares-bind (chr_at b) (handler b) (search sparing depth 30) (λ chr. q b chr other)

  tell_zone-Spares : (p : Outgoing) (oid : ℕ) (z : Option Zone) → Spares a (tell_zone p oid z)
  tell_zone-Spares p oid none = Spares-return tt
  tell_zone-Spares p oid (some z) = Spares-broadcast p (some oid) z.chrs

  must_tell-Spares : (p : Outgoing) (oid : ℕ) (z : Option Zone) → Spares a (must_tell p oid z)
  must_tell-Spares p oid none = Spares-lift _
  must_tell-Spares p oid (some z) = Spares-broadcast p (some oid) z.chrs

  act-Spares : (m : MonsterMotion) (chr : Character) (z : Option Zone) → Spares a (act m chr z)
  act-Spares m chr none = Spares-return tt
  act-Spares m chr (some z) = found (find m.mob_id z.mobs)
    where
      found : (mob : Option Monster) → Spares a (act_in m chr z mob)
      found none = Spares-return tt
      found (some mob) = search sparing depth 30

  module _ (scripts : Scripts) (h : Hit) (b : ℕ) (chr : Character) (other : b ≢ a) where
    monster_hit-Spares :
        (id : Option ℕ) (z : Zone) (fighters : Character × Monster)
        → Spares a (monster_hit scripts h b id z fighters)
    monster_hit-Spares id z (c, mob) = search sparing depth 30

    hit_zone-Spares : (z : Option Zone) → Spares a (hit_zone scripts h b chr z)
    hit_zone-Spares none = Spares-lift _
    hit_zone-Spares (some z) = found (find h.attacked z.mobs)
      where
        found : (mob : Option Monster) → Spares a (hit_in scripts h b chr z mob)
        found none = Spares-return tt
        found (some mob) =
            monster_hit-Spares chr.zone z (scripts.attack_monster h.attack_id chr mob)

    character_hit-Spares :
        (id : Option ℕ) (z : Zone) (fighters : Character × Monster)
        → Spares a (character_hit scripts h b id z fighters)
    character_hit-Spares id z (c, mob) = search sparing depth 30

    attacked_zone-Spares : (z : Option Zone) → Spares a (attacked_zone scripts h b chr z)
    attacked_zone-Spares none = Spares-lift _
    attacked_zone-Spares (some z) = found (find h.attacker z.mobs)
      where
        found : (mob : Option Monster) → Spares a (attacked_in scripts h b chr z mob)
        found none = Spares-return tt
        found (some mob) =
            character_hit-Spares chr.zone z (scripts.attack_character h.attack_id chr mob)

  received-Spares :
      {X : Type 0} (reader : Reader X) (packet : ByteStream) (missing : Call World (Unit {0}))
      (body : X → ℕ → Character → Call World (Unit {0})) (own : Option ℕ)
      → own ≢ some a
      → Spares a missing
      → ((x : X) (b : ℕ) (chr : Character) → b ≢ a → Spares a (body x b chr))
      → Spares a (receive reader packet >>= λ x. with_chr missing (body x) own)
  received-Spares reader packet missing body own n p q =
      Spares-bind _ _ (Spares-lift _) (λ x. with_chr-Spares missing (body x) own n p (q x))

  tell_others-Spares : (p : Outgoing) (chr : Character) → Spares a (tell_others p chr)
  tell_others-Spares p chr = Spares-bind _ _ Spares-get (λ s. tell_zone-Spares p _ _)

  module _ (scripts : Scripts) (b : ℕ) (chr : Character) (other : b ≢ a) where
    moved-Spares : (m : Motion) → Spares a (moved m b chr)
    moved-Spares m = search (sparing, tell_others-Spares) depth 30

    monster_acts-Spares : (m : MonsterMotion) → Spares a (monster_acts m b chr)
    monster_acts-Spares m = Spares-bind _ _ Spares-get (λ s. act-Spares m chr _)

    attacks-Spares : (motion_id : ℕ) → Spares a (attacks motion_id b chr)
    attacks-Spares motion_id = Spares-bind _ _ Spares-get (λ s. must_tell-Spares _ _ _)

    waits-Spares : (p : Placed) → Spares a (waits p b chr)
    waits-Spares p = search (sparing, tell_others-Spares) depth 30

    sprints-Spares : (cid : ℕ) → Spares a (sprints cid b chr)
    sprints-Spares cid = search (sparing, tell_others-Spares) depth 30

    rolls-Spares : (p : Placed) → Spares a (rolls p b chr)
    rolls-Spares p = search (sparing, tell_others-Spares) depth 30

    hits-Spares : (h : Hit) → Spares a (hits scripts h b chr)
    hits-Spares h =
        Spares-if _ _ _ (Spares-return tt)
          (Spares-bind _ _ Spares-get (λ s. hit_zone-Spares scripts h b chr other _))

    attacked-Spares : (h : Hit) → Spares a (attacked scripts h b chr)
    attacked-Spares h =
        Spares-if _ _ _ (Spares-return tt)
          (Spares-bind _ _ Spares-get (λ s. attacked_zone-Spares scripts h b chr other _))

  module _ (scripts : Scripts) (client : ZoneClient) (packet : ByteStream)
      (n : client.character ≢ some a) where
    handle-Spares : (opcode : Opcode) → Spares a (handle scripts opcode client packet)
    unfolding handle handle_chr_position_notify handle_monster_action_notify
        handle_character_attack_motion handle_character_wait handle_character_sprint
        handle_request_rolling handle_character_hit_success handle_monster_attack
    handle-Spares notify_current_chr_position =
        Spares-if (in_state confirm client.state) _ _
          (received-Spares read_motion packet _ _ _ n (Spares-return tt)
            λ m b chr o. moved-Spares scripts b chr o m)
          (Spares-return tt)
    handle-Spares request_character_rolling =
        received-Spares read_placed packet _ _ _ n (Spares-return tt)
          λ p b chr o. rolls-Spares scripts b chr o p
    handle-Spares notify_monster_action =
        Spares-if (in_state confirm client.state) _ _
          (received-Spares read_monster_motion packet _ _ _ n (Spares-return tt)
            λ m b chr o. monster_acts-Spares scripts b chr o m)
          (Spares-return tt)
    handle-Spares character_attack =
        received-Spares read_motion packet _ _ _ n (Spares-lift _)
          λ (m : Motion) b chr o. attacks-Spares scripts b chr o m.state
    handle-Spares character_hit_success =
        received-Spares read_hit packet _ _ _ n (Spares-lift _)
          λ h b chr o. hits-Spares scripts b chr o h
    handle-Spares monster_hit_character =
        received-Spares read_hit packet _ _ _ n (Spares-lift _)
          λ h b chr o. attacked-Spares scripts b chr o h
    handle-Spares request_character_wait =
        received-Spares read_placed packet _ _ _ n (Spares-return tt)
          λ p b chr o. waits-Spares scripts b chr o p
    handle-Spares request_character_sprint =
        received-Spares read_int64 packet _ _ _ n (Spares-return tt)
          λ cid b chr o. sprints-Spares scripts b chr o cid

-- A packet about a movement or a fight, whatever it holds and however its handler ends, leaves each character
-- but the client's own as it was, all fields of it; it leaves the clients, and of every zone who is in it and
-- who runs its monsters.
pub others_are_spared :
    (scripts : Scripts) (opcode : Opcode) (client : ZoneClient) (packet : ByteStream) (s : World)
    (a : ℕ)
    → client.character ≢ some a
    → let t = (handle scripts opcode client packet s).1 in
      (find a t.characters ≡ find a s.characters)
      × (t.clients ≡ s.clients)
      × ((id : ℕ) → population id t ≡ population id s)
others_are_spared scripts opcode client packet s a other =
    let spared = (handle-Spares scripts client packet other opcode).spares s in
    (spared.character, spared.clients, spared.zones)
