-- ===== src/Server/RemoteServerInfo.antt =====
-- UE4DevelopmentLibrary/Server/RemoteServerInfo.cpp: what a server says of itself.
use ue4team_project_server.Common.{
  ◌≡◌, ok, ◌+◌, length, ℕ, ◌^◌, ◌<◌, List, ◌++◌, arith, Result, throw, logic_error, ◌==◌,
  if◌then◌else◌,
}
use ue4team_project_server.Stream.ByteStream.{ByteStream}
use ue4team_project_server.Stream.RoundTrip.{reopen, reread}
use ue4team_project_server.Stream.OutputStream.Writes.{
  IsValid, Writes, Writes-seq, Writes-fixed, text_bytes, Writes-text,
}
use ue4team_project_server.Stream.Bytes.{to_bytes}
use ue4team_project_server.Stream.InputStream.{
  Reader, ◌>>=◌, pure, read_int16, read_int64, read_string,
}
use ue4team_project_server.Stream.InputStream.Reads.{
  Reads, Reads-bind, Reads-last, Reads-fixed, Reads-string, IsText,
}
use ue4team_project_server.Stream.OutputStream.{
  Writer, ◌>>◌, write_int16, write_int64, write_string,
}

pub record RemoteServerInfo : Type 0 where
  pub server_type : ℕ
  pub ip : List ℕ
  pub port : ℕ
  pub max_connection : ℕ
  pub current_connection : ℕ

-- The division is in double, which is left to the parameter.
unfoldable pub get_current_capacity_ratio {ℓ} :
    {D : Type ℓ} → (ℕ → ℕ → D) → RemoteServerInfo → Result D
get_current_capacity_ratio divide r =
    if r.max_connection == 0
    then throw logic_error
    else ok (divide r.current_connection r.max_connection)

unfoldable pub write_server_info : RemoteServerInfo → Writer
write_server_info r = do
  write_int16 r.server_type
  write_string r.ip
  write_int16 r.port
  write_int64 r.max_connection
  write_int64 r.current_connection

unfoldable pub read_server_info : Reader RemoteServerInfo
read_server_info = do
  server_type ← read_int16
  ip ← read_string
  port ← read_int16
  max_connection ← read_int64
  current_connection ← read_int64
  pure (record {
    server_type = server_type;
    ip = ip;
    port = port;
    max_connection = max_connection;
    current_connection = current_connection;
  })

-- Numbers fit their widths, and strings are without a zero byte and shorter than 64 bytes.
pub record IsRemoteServerInfo (r : RemoteServerInfo) : Type 0 where
  pub server_type_fits : r.server_type < 2 ^ 16
  pub ip_text : IsText r.ip
  pub ip_short : length r.ip < 64
  pub port_fits : r.port < 2 ^ 16
  pub max_connection_fits : r.max_connection < 2 ^ 64
  pub current_connection_fits : r.current_connection < 2 ^ 64

abbrev pub server_info_bytes : RemoteServerInfo → List ℕ
server_info_bytes r =
    to_bytes 2 r.server_type
    ++ (text_bytes r.ip
        ++ (to_bytes 2 r.port
            ++ (to_bytes 8 r.max_connection ++ (to_bytes 8 r.current_connection))))

pub write_server_info-Writes :
    (r : RemoteServerInfo)
    → IsRemoteServerInfo r
    → Writes (write_server_info r) (server_info_bytes r)
unfolding write_server_info
write_server_info-Writes r h = Writes-seq _ _ _ _ (Writes-fixed 2 r.server_type (omega arith)) (
    Writes-seq _ _ _ _ (Writes-text r.ip h.ip_text h.ip_short) (
      Writes-seq _ _ _ _ (Writes-fixed 2 r.port (omega arith)) (
        Writes-seq _ _ _ _ (Writes-fixed 8 r.max_connection (omega arith))
          (Writes-fixed 8 r.current_connection (omega arith)))))

pub read_server_info-Reads :
    (r : RemoteServerInfo) → IsRemoteServerInfo r → Reads read_server_info (server_info_bytes r) r
unfolding read_server_info
read_server_info-Reads r h =
    Reads-bind _ _ _ _ r.server_type r (Reads-fixed 2 r.server_type h.server_type_fits) (
      Reads-bind _ _ _ _ r.ip r (Reads-string r.ip h.ip_text) (
        Reads-bind _ _ _ _ r.port r (Reads-fixed 2 r.port h.port_fits) (
          Reads-bind _ _ _ _ r.max_connection r
            (Reads-fixed 8 r.max_connection h.max_connection_fits)
            (Reads-last _ _ _ r.current_connection
              (Reads-fixed 8 r.current_connection h.current_connection_fits)))))

-- A server's entry whose fields fit, written behind whatever a valid stream holds below 2 ^ 61
-- bytes, is read back as it was, and exactly its bytes are consumed.
pub server_info_round_trip :
    (r : RemoteServerInfo) (s : ByteStream)
    → IsRemoteServerInfo r
    → IsValid s
    → s.access_offset + length (server_info_bytes r) < 2 ^ 61
    → (t : ByteStream) × (write_server_info r s ≡ ok t)
      × (read_server_info (reopen s t)
          ≡ ok (r, record (reopen s t) { access_offset = t.access_offset }))
server_info_round_trip r s h v small =
    reread (write_server_info r) read_server_info (server_info_bytes r) r
      (write_server_info-Writes r h) (read_server_info-Reads r h) s v small
