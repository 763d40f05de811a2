-- ===== src/Model/FVector.antt =====
-- UE4Model/Model/FVector.hpp: a location or a rotation, three floats as bit patterns.
use ue4team_project_server.Common.{ℕ, ◌^◌, ◌<◌, List, ◌++◌, arith}
use ue4team_project_server.Stream.Bytes.{to_bytes}
use ue4team_project_server.Stream.InputStream.{Reader, ◌>>=◌, pure, read_float32}
use ue4team_project_server.Stream.InputStream.Reads.{Reads, Reads-bind, Reads-last, Reads-fixed}
use ue4team_project_server.Stream.OutputStream.{Writer, ◌>>◌, write_float32}
use ue4team_project_server.Stream.OutputStream.Writes.{Writes, Writes-seq, Writes-fixed}

pub record FVector : Type 0 where
  pub x : ℕ
  pub y : ℕ
  pub z : ℕ

abbrev pub zero_vector : FVector
zero_vector = record { x = 0; y = 0; z = 0 }

unfoldable pub write_vector : FVector → Writer
write_vector v = do write_float32 v.x; write_float32 v.y; write_float32 v.z

unfoldable pub read_vector : Reader FVector
read_vector = do
  x ← read_float32
  y ← read_float32
  z ← read_float32
  pure (record { x = x; y = y; z = z })

pub record IsVector (v : FVector) : Type 0 where
  pub x_fits : v.x < 2 ^ 32
  pub y_fits : v.y < 2 ^ 32
  pub z_fits : v.z < 2 ^ 32

abbrev pub vector_bytes : FVector → List ℕ
vector_bytes v = to_bytes 4 v.x ++ (to_bytes 4 v.y ++ to_bytes 4 v.z)

pub write_vector-Writes : (v : FVector) → Writes (write_vector v) (vector_bytes v)
unfolding write_vector
write_vector-Writes v =
    Writes-seq _ _ _ _ (Writes-fixed 4 v.x (omega arith))
      (Writes-seq _ _ _ _ (Writes-fixed 4 v.y (omega arith)) (Writes-fixed 4 v.z (omega arith)))

pub read_vector-Reads : (v : FVector) → IsVector v → Reads read_vector (vector_bytes v) v
unfolding read_vector
read_vector-Reads v h = Reads-bind _ _ _ _ v.x v (Reads-fixed 4 v.x h.x_fits) (
    Reads-bind _ _ _ _ v.y v (Reads-fixed 4 v.y h.y_fits)
      (Reads-last _ _ _ v.z (Reads-fixed 4 v.z h.z_fits)))
