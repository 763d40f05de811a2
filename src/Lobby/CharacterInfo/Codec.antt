-- ===== src/Lobby/CharacterInfo/Codec.antt =====
-- A character of the lobby is read as it was written.
use ue4team_project_server.Common.{
  ℕ, ◌+◌, ◌^◌, ◌<◌, ◌≡◌, List, ◌++◌, length, ok, arith, lt→ltb, le→ltb,
}
use ue4team_project_server.Stream.Bytes.{to_bytes}
use ue4team_project_server.Stream.ByteStream.{ByteStream}
use ue4team_project_server.Stream.InputStream.{Reader, ◌>>=◌, pure}
use ue4team_project_server.Stream.InputStream.Reads.{
  Reads, Reads-bind, Reads-fixed, Reads-string, IsText,
}
use ue4team_project_server.Stream.OutputStream.Writes.{
  IsValid, Writes, Writes-seq, Writes-fixed, text_bytes, Writes-text,
}
use ue4team_project_server.Stream.RoundTrip.{reopen, reread}
use ue4team_project_server.Lobby.CharacterInfo.{
  LobbyCharacterInfo, write_lobby_character_info, read_lobby_character_info, copied, name_size,
  write_name,
}

-- The numbers are patterns of 32 bits, and the name is without a zero byte and shorter than 64 bytes.
pub record IsLobbyCharacterInfo (i : LobbyCharacterInfo) : Type 0 where
  pub name_text : IsText i.name
  pub name_short : length i.name < 64
  pub slot_fits : i.slot < 2 ^ 32
  pub level_fits : i.level < 2 ^ 32
  pub str_fits : i.str < 2 ^ 32
  pub dex_fits : i.dex < 2 ^ 32
  pub intel_fits : i.intel < 2 ^ 32
  pub job_fits : i.job < 2 ^ 32
  pub face_fits : i.face < 2 ^ 32
  pub hair_fits : i.hair < 2 ^ 32
  pub gold_fits : i.gold < 2 ^ 32
  pub zone_fits : i.zone < 2 ^ 32
  pub x_fits : i.x < 2 ^ 32
  pub y_fits : i.y < 2 ^ 32
  pub z_fits : i.z < 2 ^ 32
  pub armor_itemid_fits : i.armor_itemid < 2 ^ 32
  pub hand_itemid_fits : i.hand_itemid < 2 ^ 32
  pub shoes_itemid_fits : i.shoes_itemid < 2 ^ 32
  pub weapon_itemid_fits : i.weapon_itemid < 2 ^ 32
  pub gender_fits : i.gender < 2 ^ 32

abbrev pub info_bytes : LobbyCharacterInfo → List ℕ
info_bytes i =
    to_bytes 4 i.slot
    ++ (text_bytes i.name
        ++ (to_bytes 4 i.level
            ++ (to_bytes 4 i.str
                ++ (to_bytes 4 i.dex
                    ++ (to_bytes 4 i.intel
                        ++ (to_bytes 4 i.job
                            ++ (to_bytes 4 i.face
                                ++ (to_bytes 4 i.hair
                                    ++ (to_bytes 4 i.gold
                                        ++ (to_bytes 4 i.zone
                                            ++ (to_bytes 4 i.x
                                                ++ (to_bytes 4 i.y
                                                    ++ (to_bytes 4 i.z
                                                        ++ (to_bytes 4 i.armor_itemid
                                                            ++ (to_bytes 4 i.hand_itemid
                                                            ++ (to_bytes 4 i.shoes_itemid
                                                            ++ (to_bytes 4 i.weapon_itemid
                                                            ++ (to_bytes 4
                                                            i.gender))))))))))))))))))

-- A last read whose value is only rearranged.
Reads-done :
    {A B : Type 0} (r : Reader A) (next : A → Reader B) (bytes : List ℕ) (v : A) (w : B)
    → Reads r bytes v
    → ((s : ByteStream) → next v s ≡ ok (w, s))
    → Reads (r >>= next) bytes w
Reads-done r next bytes v w hr hn s rest a = rw (hr s rest a) (hn _)

write_name-Writes :
    (i : LobbyCharacterInfo) → IsLobbyCharacterInfo i → Writes (write_name i) (text_bytes i.name)
write_name-Writes i h =
    let fits : length i.name < name_size = omega (arith, h.name_short) in
    rw (lt→ltb _ _ fits) (Writes-text i.name h.name_text h.name_short)

pub write_info-Writes :
    (i : LobbyCharacterInfo)
    → IsLobbyCharacterInfo i
    → Writes (write_lobby_character_info i) (info_bytes i)
unfolding write_lobby_character_info
write_info-Writes i h =
    (Writes-seq _ _ _ _ (Writes-fixed 4 i.slot (omega arith)) (
      Writes-seq _ _ _ _ (write_name-Writes i h) (
        Writes-seq _ _ _ _ (Writes-fixed 4 i.level (omega arith)) (
          Writes-seq _ _ _ _ (Writes-fixed 4 i.str (omega arith)) (
            Writes-seq _ _ _ _ (Writes-fixed 4 i.dex (omega arith)) (
              Writes-seq _ _ _ _ (Writes-fixed 4 i.intel (omega arith)) (
                Writes-seq _ _ _ _ (Writes-fixed 4 i.job (omega arith)) (
                  Writes-seq _ _ _ _ (Writes-fixed 4 i.face (omega arith)) (
                    Writes-seq _ _ _ _ (Writes-fixed 4 i.hair (omega arith)) (
                      Writes-seq _ _ _ _ (Writes-fixed 4 i.gold (omega arith)) (
                        Writes-seq _ _ _ _ (Writes-fixed 4 i.zone (omega arith)) (
                          Writes-seq _ _ _ _ (Writes-fixed 4 i.x (omega arith)) (
                            Writes-seq _ _ _ _ (Writes-fixed 4 i.y (omega arith)) (
                              Writes-seq _ _ _ _ (Writes-fixed 4 i.z (omega arith)) (
                                Writes-seq _ _ _ _ (Writes-fixed 4 i.armor_itemid (omega arith)) (
                                  Writes-seq _ _ _ _ (Writes-fixed 4 i.hand_itemid (omega arith)) (
                                    Writes-seq _ _ _ _ (Writes-fixed 4 i.shoes_itemid (omega arith))
                                      (Writes-seq _ _ _ _
                                        (Writes-fixed 4 i.weapon_itemid (omega arith))
                                        (Writes-fixed 4 i.gender (omega arith))))))))))))))))))))

pub read_info-Reads :
    (i : LobbyCharacterInfo)
    → IsLobbyCharacterInfo i
    → Reads read_lobby_character_info (info_bytes i) i
unfolding read_lobby_character_info
read_info-Reads i h =
    (Reads-bind _ _ _ _ i.slot i (Reads-fixed 4 i.slot h.slot_fits) (
      Reads-bind _ _ _ _ i.name i (Reads-string i.name h.name_text) (
        Reads-bind _ _ _ _ i.level i (Reads-fixed 4 i.level h.level_fits) (
          Reads-bind _ _ _ _ i.str i (Reads-fixed 4 i.str h.str_fits) (
            Reads-bind _ _ _ _ i.dex i (Reads-fixed 4 i.dex h.dex_fits) (
              Reads-bind _ _ _ _ i.intel i (Reads-fixed 4 i.intel h.intel_fits) (
                Reads-bind _ _ _ _ i.job i (Reads-fixed 4 i.job h.job_fits) (
                  Reads-bind _ _ _ _ i.face i (Reads-fixed 4 i.face h.face_fits) (
                    Reads-bind _ _ _ _ i.hair i (Reads-fixed 4 i.hair h.hair_fits) (
                      Reads-bind _ _ _ _ i.gold i (Reads-fixed 4 i.gold h.gold_fits) (
                        Reads-bind _ _ _ _ i.zone i (Reads-fixed 4 i.zone h.zone_fits) (
                          Reads-bind _ _ _ _ i.x i (Reads-fixed 4 i.x h.x_fits) (
                            Reads-bind _ _ _ _ i.y i (Reads-fixed 4 i.y h.y_fits) (
                              Reads-bind _ _ _ _ i.z i (Reads-fixed 4 i.z h.z_fits) (
                                Reads-bind _ _ _ _ i.armor_itemid i
                                  (Reads-fixed 4 i.armor_itemid h.armor_itemid_fits)
                                  (Reads-bind _ _ _ _ i.hand_itemid i
                                    (Reads-fixed 4 i.hand_itemid h.hand_itemid_fits)
                                    (Reads-bind _ _ _ _ i.shoes_itemid i
                                      (Reads-fixed 4 i.shoes_itemid h.shoes_itemid_fits)
                                      (Reads-bind _ _ _ _ i.weapon_itemid i
                                        (Reads-fixed 4 i.weapon_itemid h.weapon_itemid_fits)
                                        (Reads-done _ _ _ i.gender i
                                          (Reads-fixed 4 i.gender h.gender_fits)
                                          done)))))))))))))))))))
  where
    fits : length i.name < 101
    fits = omega (arith, h.name_short)

    done :
        (s : ByteStream)
        → (copied i.name >>= λ array. pure (record i { name = array })) s ≡ ok (i, s)
    done s = rw (le→ltb name_size (length i.name) (omega arith))

-- A character whose fields fit, written behind whatever a valid stream holds below 2 ^ 61 bytes, is read back
-- as it was, and exactly its bytes are consumed.
pub lobby_character_info_round_trip :
    (i : LobbyCharacterInfo) (s : ByteStream)
    → IsLobbyCharacterInfo i
    → IsValid s
    → s.access_offset + length (info_bytes i) < 2 ^ 61
    → (t : ByteStream) × (write_lobby_character_info i s ≡ ok t)
      × (read_lobby_character_info (reopen s t)
          ≡ ok (i, record (reopen s t) { access_offset = t.access_offset }))
lobby_character_info_round_trip i s h v small =
    reread (write_lobby_character_info i) read_lobby_character_info (info_bytes i) i
      (write_info-Writes i h) (read_info-Reads i h) s v small
