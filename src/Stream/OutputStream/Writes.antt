-- ===== src/Stream/OutputStream/Writes.antt =====
-- What the writes do to the bytes written so far.
use ue4team_project_server.Common.{
  [], ℕ, ◌+◌, ◌*◌, ◌^◌, ◌≤◌, ◌<◌, All, ◌≢◌, ◌≡◌, refl, sym, ap, ◌∙◌, List, ◌∷◌, ◌++◌, length, take,
  drop, length-append, length-drop, length-take, length-replicate, take-append, take-append_le,
  take_all, append_assoc, ok, fault, arith,
}
use native.Mathlib.Decide.{dec_lt}
use ue4team_project_server.Stream.Bytes.{to_bytes, length-to_bytes}
use ue4team_project_server.Stream.ByteStream.{ByteStream, load, store}
use ue4team_project_server.Stream.OutputStream.{
  Writer, ◌>>◌, new_array, output_stream, buffer_if_short_realloc_memory, write_bytes, until_nul,
  write_string,
}

-- `tight` bounds the growth: the buffer doubles only when the offset is about to pass it.
pub record IsValid (s : ByteStream) : Type 0 where
  pub allocated : length s.memory ≡ s.buffer_length
  pub within : s.access_offset ≤ s.buffer_length
  pub room : 64 ≤ s.buffer_length
  pub tight : s.buffer_length ≤ 2048 + 2 * s.access_offset

-- The bytes written so far.
abbrev pub contents : ByteStream → List ℕ
contents s = take s.access_offset s.memory

length-new_array : (n : ℕ) → length (new_array n) ≡ n
unfolding new_array
length-new_array n = length-replicate n _

pub output_stream-IsValid : (n : ℕ) → 64 ≤ n → n ≤ 2048 → IsValid (output_stream n)
unfolding output_stream
output_stream-IsValid n lo hi = record {
  allocated = length-new_array n;
  within = omega arith;
  room = lo;
  tight = omega arith;
}

stored : List ℕ → ℕ → List ℕ → List ℕ
stored memory offset bytes = take offset memory ++ (bytes ++ drop (offset + length bytes) memory)

store-eq-ok :
    (memory : List ℕ) (offset : ℕ) (bytes : List ℕ)
    → offset + length bytes ≤ length memory
    → store memory offset bytes ≡ ok (stored memory offset bytes)
unfolding store stored
store-eq-ok memory offset bytes h = ground arith

length-stored :
    (memory : List ℕ) (offset : ℕ) (bytes : List ℕ)
    → offset + length bytes ≤ length memory
    → length (stored memory offset bytes) ≡ length memory
unfolding stored
length-stored memory offset bytes h = omega (
  arith,
  length-append (take offset memory) (bytes ++ drop (offset + length bytes) memory),
  length-append bytes (drop (offset + length bytes) memory),
  length-take offset memory,
  length-drop (offset + length bytes) memory,
)

take-stored :
    (memory : List ℕ) (offset : ℕ) (bytes : List ℕ)
    → offset + length bytes ≤ length memory
    → take (offset + length bytes) (stored memory offset bytes) ≡ take offset memory ++ bytes
unfolding stored
take-stored memory offset bytes h =
    let front : List ℕ = take offset memory ++ bytes in
    let back : List ℕ = drop (offset + length bytes) memory in
    ap (take (offset + length bytes)) (sym (append_assoc (take offset memory) bytes back))
    ∙ take-append front back (offset + length bytes)
        (omega (arith, length-append (take offset memory) bytes, length-take offset memory))

-- What a reallocation gives.
record Grown (s t : ByteStream) (n : ℕ) : Type 0 where
  allocated : length t.memory ≡ t.buffer_length
  offset : t.access_offset ≡ s.access_offset
  kept : take s.access_offset t.memory ≡ contents s
  fits : s.access_offset + n ≤ t.buffer_length
  bound : t.buffer_length ≤ 2048 + 2 * (s.access_offset + n)
  room : 64 ≤ t.buffer_length

doubled : ByteStream → ByteStream
unfolding stored
doubled s = record s {
  memory = stored (new_array (s.buffer_length * 2)) 0 s.memory;
  buffer_length = s.buffer_length * 2;
}

load_all : (memory : List ℕ) (n : ℕ) → length memory ≡ n → load memory 0 n ≡ ok memory
unfolding load
load_all memory n h = ground (arith, take_all memory n)

realloc_doubles :
    (s : ByteStream) (n : ℕ)
    → IsValid s
    → s.buffer_length < s.access_offset + n
    → s.access_offset + n < 2 ^ 61
    → buffer_if_short_realloc_memory n s ≡ ok (doubled s)
unfolding buffer_if_short_realloc_memory doubled
realloc_doubles s n v h small = ground (
  arith,
  load_all s.memory s.buffer_length v.allocated,
  length-new_array (s.buffer_length * 2),
  store-eq-ok (new_array (s.buffer_length * 2)) 0 s.memory,
)

doubled-Grown :
    (s : ByteStream) (n : ℕ)
    → IsValid s
    → s.buffer_length < s.access_offset + n
    → s.access_offset + n ≤ s.buffer_length * 2
    → Grown s (doubled s) n
unfolding doubled
doubled-Grown s n v short fits =
    let l = length-new_array (s.buffer_length * 2) in
    record {
      allocated =
          length-stored (new_array (s.buffer_length * 2)) 0 s.memory (omega (arith, l, v.allocated))
          ∙ l;
      offset = refl;
      kept =
          unfold stored in
          take-append_le s.memory _ s.access_offset (omega (arith, v.allocated, v.within));
      fits = fits;
      bound = omega arith;
      room = omega (arith, v.room);
    }

realloc-Grown :
    (s : ByteStream) (n : ℕ)
    → IsValid s
    → s.access_offset + n ≤ s.buffer_length * 2
    → s.access_offset + n < 2 ^ 61
    → (t : ByteStream) × (buffer_if_short_realloc_memory n s ≡ ok t) × Grown s t n
realloc-Grown s n v fits small = elim (dec_lt s.buffer_length (s.access_offset + n)) [
  | yes short ↦ (doubled s, realloc_doubles s n v short small, doubled-Grown s n v short fits)
  | no enough ↦ (
    s,
    unfold buffer_if_short_realloc_memory in ground arith,
    record {
      allocated = v.allocated;
      offset = refl;
      kept = refl;
      fits = omega arith;
      bound = omega (arith, v.tight);
      room = v.room;
    },
  )
]

abbrev pub Written : ByteStream → List ℕ → ByteStream → Type 0
Written s bytes t =
    IsValid t
    × (contents t ≡ contents s ++ bytes)
    × (t.access_offset ≡ s.access_offset + length bytes)

write-Grown :
    (s t : ByteStream) (bytes : List ℕ)
    → Grown s t (length bytes)
    → buffer_if_short_realloc_memory (length bytes) s ≡ ok t
    → s.access_offset + length bytes < 2 ^ 61
    → (r : ByteStream) × (write_bytes bytes s ≡ ok r) × Written s bytes r
unfolding write_bytes
write-Grown s t bytes g e small =
    let end : ℕ = s.access_offset + length bytes in
    let room : s.access_offset + length bytes ≤ length t.memory =
      omega (arith, g.fits, g.allocated) in
    let memory : List ℕ = stored t.memory s.access_offset bytes in
    (
      record { memory = memory; buffer_length = t.buffer_length; access_offset = end },
      rw e (ground (arith, g.offset, store-eq-ok t.memory s.access_offset bytes room)),
      (
        record {
          allocated = length-stored t.memory s.access_offset bytes room ∙ g.allocated;
          within = g.fits;
          room = g.room;
          tight = g.bound;
        },
        take-stored t.memory s.access_offset bytes room ∙ ap (λ m. m ++ bytes) g.kept,
        refl,
      ),
    )

-- A write to a valid stream that needs at most twice the buffer, below 2 ^ 61, succeeds, appends its
-- bytes and keeps the stream valid.
pub write_bytes-Written :
    (s : ByteStream) (bytes : List ℕ)
    → IsValid s
    → s.access_offset + length bytes ≤ s.buffer_length * 2
    → s.access_offset + length bytes < 2 ^ 61
    → (t : ByteStream) × (write_bytes bytes s ≡ ok t) × Written s bytes t
write_bytes-Written s bytes v fits small =
    let (t, e, g) = realloc-Grown s (length bytes) v fits small in write-Grown s t bytes g e small

store-eq-fault :
    (memory : List ℕ) (offset : ℕ) (bytes : List ℕ)
    → length memory < offset + length bytes
    → store memory offset bytes ≡ fault
unfolding store
store-eq-fault memory offset bytes h = ground arith

-- A write to a valid stream that needs more than twice the buffer, below 2 ^ 61, runs past the new
-- allocation.
pub write_bytes_overrun :
    (s : ByteStream) (bytes : List ℕ)
    → IsValid s
    → s.buffer_length * 2 < s.access_offset + length bytes
    → s.access_offset + length bytes < 2 ^ 61
    → write_bytes bytes s ≡ fault
unfolding write_bytes
write_bytes_overrun s bytes v h small =
    rw (realloc_doubles s (length bytes) v (omega arith) small) (
      rw (
        store-eq-fault (doubled s).memory (doubled s).access_offset bytes (
          unfold doubled in
          omega (
            arith,
            length-new_array (s.buffer_length * 2),
            length-stored (new_array (s.buffer_length * 2)) 0 s.memory
                (omega (arith, length-new_array (s.buffer_length * 2), v.allocated)),
          ))))

abbrev pub Writes : Writer → List ℕ → Type 0
Writes w bytes =
    (s : ByteStream)
    → IsValid s
    → s.access_offset + length bytes < 2 ^ 61
    → (t : ByteStream) × (w s ≡ ok t) × Written s bytes t

pub Writes-bytes : (bytes : List ℕ) → length bytes ≤ 64 → Writes (write_bytes bytes) bytes
Writes-bytes bytes h s v small =
    write_bytes-Written s bytes v (omega (arith, v.within, v.room)) small

pub Writes-fixed : (n v : ℕ) → n ≤ 64 → Writes (write_bytes (to_bytes n v)) (to_bytes n v)
Writes-fixed n v h = Writes-bytes (to_bytes n v) (omega (arith, length-to_bytes n v))

pub Writes-seq :
    (v w : Writer) (front back : List ℕ)
    → Writes v front
    → Writes w back
    → Writes (v >> w) (front ++ back)
Writes-seq v w front back hv hw s valid small =
    let sum = length-append front back in
    let (t, et, (vt, ct, ot)) = hv s valid (omega (arith, sum)) in
    let (r, er, (vr, cr, or)) = hw t vt (omega (arith, sum)) in
    (
      r,
      rw et er,
      (vr, cr ∙ ap (λ m. m ++ back) ct ∙ append_assoc (contents s) front back, omega (arith, sum)),
    )

-- The bytes of a string without a zero byte, and the zero that ends it.
abbrev pub text_bytes : List ℕ → List ℕ
text_bytes str = str ++ 0 ∷ []

until_nul_text : (str : List ℕ) → All (λ b. b ≢ 0) str → until_nul str ≡ str
until_nul_text [] h = refl
until_nul_text (b ∷ str) (hb, h) = ground (arith, until_nul_text str h)

pub Writes-text :
    (str : List ℕ)
    → All (λ b. b ≢ 0) str
    → length str < 64
    → Writes (write_string str) (text_bytes str)
Writes-text str h short =
    rw (until_nul_text str h)
      (Writes-bytes (text_bytes str) (omega (arith, length-append str (0 ∷ []))))
