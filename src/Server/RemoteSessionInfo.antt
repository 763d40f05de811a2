-- ===== src/Server/RemoteSessionInfo.antt =====
-- UE4DevelopmentLibrary/Server/RemoteSessionInfo.cpp: the authority of a user to enter a server.
use ue4team_project_server.Common.{◌≡◌, ok, ◌+◌, length, ℕ, ◌*◌, ◌/◌, ◌^◌, ◌<◌, List, ◌++◌, arith}
use ue4team_project_server.Stream.ByteStream.{ByteStream}
use ue4team_project_server.Stream.RoundTrip.{reopen, reread}
use ue4team_project_server.Stream.OutputStream.Writes.{
  IsValid, Writes, Writes-seq, Writes-fixed, text_bytes, Writes-text,
}
use ue4team_project_server.Stream.Bytes.{to_bytes}
use ue4team_project_server.Stream.InputStream.{
  Reader, ◌>>=◌, pure, read_int32, read_int64, read_string,
}
use ue4team_project_server.Stream.InputStream.Reads.{
  Reads, Reads-bind, Reads-last, Reads-fixed, Reads-string, IsText,
}
use ue4team_project_server.Stream.OutputStream.{
  Writer, ◌>>◌, write_int32, write_int64, write_string,
}

-- Time/Clock.cpp: a time point counts ticks of 100 ns since the epoch, as system_clock of the target
-- does; a time_t counts whole seconds.
abbrev ticks_per_second : ℕ
ticks_per_second = 10_000_000

unfoldable pub to_time_t : ℕ → ℕ
to_time_t time = time / ticks_per_second

unfoldable pub from_time_t : ℕ → ℕ
from_time_t seconds = seconds * ticks_per_second

pub record RemoteSessionInfo : Type 0 where
  pub ip : List ℕ
  pub id : List ℕ
  pub time : ℕ
  pub accid : ℕ
  pub cid : ℕ

unfoldable pub write_session_info : RemoteSessionInfo → Writer
write_session_info r = do
  write_string r.ip
  write_string r.id
  write_int64 (to_time_t r.time)
  write_int32 r.accid
  write_int32 r.cid

unfoldable pub read_session_info : Reader RemoteSessionInfo
read_session_info = do
  ip ← read_string
  id ← read_string
  time ← read_int64
  accid ← read_int32
  cid ← read_int32
  pure (record { ip = ip; id = id; time = from_time_t time; accid = accid; cid = cid })

-- Numbers fit their widths, and strings are without a zero byte and shorter than 64 bytes.
pub record IsRemoteSessionInfo (r : RemoteSessionInfo) : Type 0 where
  pub ip_text : IsText r.ip
  pub ip_short : length r.ip < 64
  pub id_text : IsText r.id
  pub id_short : length r.id < 64
  pub time_fits : to_time_t r.time < 2 ^ 64
  pub accid_fits : r.accid < 2 ^ 32
  pub cid_fits : r.cid < 2 ^ 32

abbrev pub session_info_bytes : RemoteSessionInfo → List ℕ
session_info_bytes r =
    text_bytes r.ip
    ++ (text_bytes r.id
        ++ (to_bytes 8 (to_time_t r.time) ++ (to_bytes 4 r.accid ++ (to_bytes 4 r.cid))))

pub write_session_info-Writes :
    (r : RemoteSessionInfo)
    → IsRemoteSessionInfo r
    → Writes (write_session_info r) (session_info_bytes r)
unfolding write_session_info
write_session_info-Writes r h = Writes-seq _ _ _ _ (Writes-text r.ip h.ip_text h.ip_short) (
    Writes-seq _ _ _ _ (Writes-text r.id h.id_text h.id_short) (
      Writes-seq _ _ _ _ (Writes-fixed 8 (to_time_t r.time) (omega arith)) (
        Writes-seq _ _ _ _ (Writes-fixed 4 r.accid (omega arith))
          (Writes-fixed 4 r.cid (omega arith)))))

-- The part of a second is lost on the wire.
abbrev pub whole_seconds : RemoteSessionInfo → RemoteSessionInfo
whole_seconds r = record r { time = from_time_t (to_time_t r.time) }

pub whole_seconds-IsRemoteSessionInfo :
    (r : RemoteSessionInfo) → IsRemoteSessionInfo r → IsRemoteSessionInfo (whole_seconds r)
unfolding to_time_t from_time_t
whole_seconds-IsRemoteSessionInfo r h = record {
  ip_text = h.ip_text;
  ip_short = h.ip_short;
  id_text = h.id_text;
  id_short = h.id_short;
  time_fits = omega (arith, h.time_fits);
  accid_fits = h.accid_fits;
  cid_fits = h.cid_fits;
}

pub read_session_info-Reads :
    (r : RemoteSessionInfo)
    → IsRemoteSessionInfo r
    → Reads read_session_info (session_info_bytes r) (whole_seconds r)
unfolding read_session_info
read_session_info-Reads r h =
    Reads-bind _ _ _ _ r.ip (whole_seconds r) (Reads-string r.ip h.ip_text) (
      Reads-bind _ _ _ _ r.id (whole_seconds r) (Reads-string r.id h.id_text) (
        Reads-bind _ _ _ _ (to_time_t r.time) (whole_seconds r)
          (Reads-fixed 8 (to_time_t r.time) h.time_fits)
          (Reads-bind _ _ _ _ r.accid (whole_seconds r) (Reads-fixed 4 r.accid h.accid_fits)
            (Reads-last _ _ _ r.cid (Reads-fixed 4 r.cid h.cid_fits)))))

-- A session's entry whose fields fit, written behind whatever a valid stream holds below 2 ^ 61
-- bytes, is read back with its time cut to whole seconds and all else as it was, and exactly its
-- bytes are consumed.
pub session_info_round_trip :
    (r : RemoteSessionInfo) (s : ByteStream)
    → IsRemoteSessionInfo r
    → IsValid s
    → s.access_offset + length (session_info_bytes r) < 2 ^ 61
    → (t : ByteStream) × (write_session_info r s ≡ ok t)
      × (read_session_info (reopen s t)
          ≡ ok (whole_seconds r, record (reopen s t) { access_offset = t.access_offset }))
session_info_round_trip r s h v small =
    reread (write_session_info r) read_session_info (session_info_bytes r) (whole_seconds r)
      (write_session_info-Writes r h) (read_session_info-Reads r h) s v small
