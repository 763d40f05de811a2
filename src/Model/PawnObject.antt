-- ===== src/Model/PawnObject.antt =====
-- UE4Model/Model/PawnObject.cpp: the fighting values of a character or monster, floats as bit patterns.
use ue4team_project_server.Common.{◌≡◌, ok, ◌+◌, length, ℕ, ◌^◌, ◌<◌, List, ◌++◌, arith}
use ue4team_project_server.Stream.ByteStream.{ByteStream}
use ue4team_project_server.Stream.RoundTrip.{reopen, reread}
use ue4team_project_server.Stream.OutputStream.Writes.{IsValid, Writes, Writes-seq, Writes-fixed}
use ue4team_project_server.Stream.Bytes.{to_bytes}
use ue4team_project_server.Stream.InputStream.{Reader, ◌>>=◌, pure, read_float32}
use ue4team_project_server.Stream.InputStream.Reads.{Reads, Reads-bind, Reads-last, Reads-fixed}
use ue4team_project_server.Stream.OutputStream.{Writer, ◌>>◌, write_float32}

pub record PawnStat : Type 0 where
  pub hp : ℕ
  pub max_hp : ℕ
  pub attack_min : ℕ
  pub attack_max : ℕ
  pub attack_range : ℕ
  pub attack_speed : ℕ
  pub defence : ℕ
  pub speed : ℕ

unfoldable pub write_pawn_stat : PawnStat → Writer
write_pawn_stat r = do
  write_float32 r.hp
  write_float32 r.max_hp
  write_float32 r.attack_min
  write_float32 r.attack_max
  write_float32 r.attack_range
  write_float32 r.attack_speed
  write_float32 r.defence
  write_float32 r.speed

unfoldable pub read_pawn_stat : Reader PawnStat
read_pawn_stat = do
  hp ← read_float32
  max_hp ← read_float32
  attack_min ← read_float32
  attack_max ← read_float32
  attack_range ← read_float32
  attack_speed ← read_float32
  defence ← read_float32
  speed ← read_float32
  pure (record {
    hp = hp;
    max_hp = max_hp;
    attack_min = attack_min;
    attack_max = attack_max;
    attack_range = attack_range;
    attack_speed = attack_speed;
    defence = defence;
    speed = speed;
  })

pub record IsPawnStat (r : PawnStat) : Type 0 where
  pub hp_fits : r.hp < 2 ^ 32
  pub max_hp_fits : r.max_hp < 2 ^ 32
  pub attack_min_fits : r.attack_min < 2 ^ 32
  pub attack_max_fits : r.attack_max < 2 ^ 32
  pub attack_range_fits : r.attack_range < 2 ^ 32
  pub attack_speed_fits : r.attack_speed < 2 ^ 32
  pub defence_fits : r.defence < 2 ^ 32
  pub speed_fits : r.speed < 2 ^ 32

abbrev pub pawn_stat_bytes : PawnStat → List ℕ
pawn_stat_bytes r =
    to_bytes 4 r.hp
    ++ (to_bytes 4 r.max_hp
        ++ (to_bytes 4 r.attack_min
            ++ (to_bytes 4 r.attack_max
                ++ (to_bytes 4 r.attack_range
                    ++ (to_bytes 4 r.attack_speed
                        ++ (to_bytes 4 r.defence ++ (to_bytes 4 r.speed)))))))

pub write_pawn_stat-Writes :
    (r : PawnStat) → IsPawnStat r → Writes (write_pawn_stat r) (pawn_stat_bytes r)
unfolding write_pawn_stat
write_pawn_stat-Writes r h = Writes-seq _ _ _ _ (Writes-fixed 4 r.hp (omega arith)) (
    Writes-seq _ _ _ _ (Writes-fixed 4 r.max_hp (omega arith)) (
      Writes-seq _ _ _ _ (Writes-fixed 4 r.attack_min (omega arith)) (
        Writes-seq _ _ _ _ (Writes-fixed 4 r.attack_max (omega arith)) (
          Writes-seq _ _ _ _ (Writes-fixed 4 r.attack_range (omega arith)) (
            Writes-seq _ _ _ _ (Writes-fixed 4 r.attack_speed (omega arith)) (
              Writes-seq _ _ _ _ (Writes-fixed 4 r.defence (omega arith))
                (Writes-fixed 4 r.speed (omega arith))))))))

pub read_pawn_stat-Reads :
    (r : PawnStat) → IsPawnStat r → Reads read_pawn_stat (pawn_stat_bytes r) r
unfolding read_pawn_stat
read_pawn_stat-Reads r h = Reads-bind _ _ _ _ r.hp r (Reads-fixed 4 r.hp h.hp_fits) (
    Reads-bind _ _ _ _ r.max_hp r (Reads-fixed 4 r.max_hp h.max_hp_fits) (
      Reads-bind _ _ _ _ r.attack_min r (Reads-fixed 4 r.attack_min h.attack_min_fits) (
        Reads-bind _ _ _ _ r.attack_max r (Reads-fixed 4 r.attack_max h.attack_max_fits) (
          Reads-bind _ _ _ _ r.attack_range r (Reads-fixed 4 r.attack_range h.attack_range_fits) (
            Reads-bind _ _ _ _ r.attack_speed r (Reads-fixed 4 r.attack_speed h.attack_speed_fits) (
              Reads-bind _ _ _ _ r.defence r (Reads-fixed 4 r.defence h.defence_fits)
                (Reads-last _ _ _ r.speed (Reads-fixed 4 r.speed h.speed_fits))))))))

-- A pawn's values whose bit patterns fit, written behind whatever a valid stream holds below 2 ^ 61
-- bytes, are read back as they were, and exactly their bytes are consumed.
pub pawn_stat_round_trip :
    (r : PawnStat) (s : ByteStream)
    → IsPawnStat r
    → IsValid s
    → s.access_offset + length (pawn_stat_bytes r) < 2 ^ 61
    → (t : ByteStream) × (write_pawn_stat r s ≡ ok t)
      × (read_pawn_stat (reopen s t)
          ≡ ok (r, record (reopen s t) { access_offset = t.access_offset }))
pawn_stat_round_trip r s h v small =
    reread (write_pawn_stat r) read_pawn_stat (pawn_stat_bytes r) r (write_pawn_stat-Writes r h)
      (read_pawn_stat-Reads r h) s v small
