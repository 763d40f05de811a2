-- ===== src/Model/ZoneObject.antt =====
-- UE4Model/Model/ZoneObject.cpp: what every object of a zone has.
use ue4team_project_server.Common.{◌≡◌, ok, ◌+◌, length, ℕ, ◌^◌, ◌<◌, List, ◌++◌, arith}
use ue4team_project_server.Stream.ByteStream.{ByteStream}
use ue4team_project_server.Stream.RoundTrip.{reopen, reread}
use ue4team_project_server.Stream.OutputStream.Writes.{IsValid, Writes, Writes-seq, Writes-fixed}
use ue4team_project_server.Stream.Bytes.{to_bytes}
use ue4team_project_server.Stream.InputStream.{Reader, ◌>>=◌, pure, read_int32, read_int64}
use ue4team_project_server.Stream.InputStream.Reads.{Reads, Reads-bind, Reads-last, Reads-fixed}
use ue4team_project_server.Stream.OutputStream.{Writer, ◌>>◌, write_int32, write_int64}
use ue4team_project_server.Model.FVector.{
  FVector, IsVector, write_vector, read_vector, vector_bytes, write_vector-Writes,
  read_vector-Reads,
}

pub record ZoneObject : Type 0 where
  pub object_type : ℕ
  pub template_id : ℕ
  pub object_id : ℕ
  pub location : FVector
  pub rotation : FVector

unfoldable pub write_zone_object : ZoneObject → Writer
write_zone_object r = do
  write_int32 r.object_type
  write_int32 r.template_id
  write_int64 r.object_id
  write_vector r.location
  write_vector r.rotation

unfoldable pub read_zone_object : Reader ZoneObject
read_zone_object = do
  object_type ← read_int32
  template_id ← read_int32
  object_id ← read_int64
  location ← read_vector
  rotation ← read_vector
  pure (record {
    object_type = object_type;
    template_id = template_id;
    object_id = object_id;
    location = location;
    rotation = rotation;
  })

pub record IsZoneObject (r : ZoneObject) : Type 0 where
  pub object_type_fits : r.object_type < 2 ^ 32
  pub template_id_fits : r.template_id < 2 ^ 32
  pub object_id_fits : r.object_id < 2 ^ 64
  pub location_fits : IsVector r.location
  pub rotation_fits : IsVector r.rotation

abbrev pub zone_object_bytes : ZoneObject → List ℕ
zone_object_bytes r =
    to_bytes 4 r.object_type
    ++ (to_bytes 4 r.template_id
        ++ (to_bytes 8 r.object_id ++ (vector_bytes r.location ++ (vector_bytes r.rotation))))

pub write_zone_object-Writes :
    (r : ZoneObject) → IsZoneObject r → Writes (write_zone_object r) (zone_object_bytes r)
unfolding write_zone_object
write_zone_object-Writes r h = Writes-seq _ _ _ _ (Writes-fixed 4 r.object_type (omega arith)) (
    Writes-seq _ _ _ _ (Writes-fixed 4 r.template_id (omega arith)) (
      Writes-seq _ _ _ _ (Writes-fixed 8 r.object_id (omega arith))
        (Writes-seq _ _ _ _ (write_vector-Writes r.location) (write_vector-Writes r.rotation))))

pub read_zone_object-Reads :
    (r : ZoneObject) → IsZoneObject r → Reads read_zone_object (zone_object_bytes r) r
unfolding read_zone_object
read_zone_object-Reads r h =
    Reads-bind _ _ _ _ r.object_type r (Reads-fixed 4 r.object_type h.object_type_fits) (
      Reads-bind _ _ _ _ r.template_id r (Reads-fixed 4 r.template_id h.template_id_fits) (
        Reads-bind _ _ _ _ r.object_id r (Reads-fixed 8 r.object_id h.object_id_fits) (
          Reads-bind _ _ _ _ r.location r (read_vector-Reads r.location h.location_fits)
            (Reads-last _ _ _ r.rotation (read_vector-Reads r.rotation h.rotation_fits)))))

-- A zone object whose fields fit, written behind whatever a valid stream holds below 2 ^ 61 bytes,
-- is read back as it was, and exactly its bytes are consumed.
pub zone_object_round_trip :
    (r : ZoneObject) (s : ByteStream)
    → IsZoneObject r
    → IsValid s
    → s.access_offset + length (zone_object_bytes r) < 2 ^ 61
    → (t : ByteStream) × (write_zone_object r s ≡ ok t)
      × (read_zone_object (reopen s t)
          ≡ ok (r, record (reopen s t) { access_offset = t.access_offset }))
zone_object_round_trip r s h v small =
    reread (write_zone_object r) read_zone_object (zone_object_bytes r) r
      (write_zone_object-Writes r h) (read_zone_object-Reads r h) s v small
