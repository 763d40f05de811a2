-- ===== src/Stream/InputStream/Reads.antt =====
-- What the reads do on a stream whose unread bytes are known.
use ue4team_project_server.Common.{
  ℕ, ◌+◌, ◌-◌, ◌^◌, ◌≤◌, ◌<◌, ◌≡◌, refl, sym, ap, ◌∙◌, List, [], ◌∷◌, ◌++◌, length, take, drop, All,
  length-append, subst, take-append, drop-append, drop-drop, append_assoc, ok, throw, packet_dump,
  arith, ◌≢◌,
}
use ue4team_project_server.Stream.Bytes.{to_bytes, length-to_bytes, of_bytes-to_bytes}
use ue4team_project_server.Stream.ByteStream.{ByteStream, stream_valid_check, load}
use ue4team_project_server.Stream.InputStream.{
  Reader, ◌>>=◌, pure, advance, peek_bytes, read_bytes, peek_fixed, read_fixed, strlen,
  peek_string_of, read_string_of, read_string,
}

-- The bytes from the offset to the end of the buffer are `bytes`.
pub record At (s : ByteStream) (bytes : List ℕ) : Type 0 where
  pub slack : List ℕ
  pub unread : drop s.access_offset s.memory ≡ bytes ++ slack
  pub ends : s.buffer_length ≡ s.access_offset + length bytes
  pub small : s.buffer_length < 2 ^ 64
  pub within : s.buffer_length ≤ length s.memory

abbrev pub Reads : {A : Type 0} → Reader A → List ℕ → A → Type 0
Reads r bytes v =
    (s : ByteStream) (rest : List ℕ)
    → At s (bytes ++ rest)
    → r s ≡ ok (v, record s { access_offset = s.access_offset + length bytes })

pub At-advance :
    (s : ByteStream) (bytes rest : List ℕ)
    → At s (bytes ++ rest)
    → At (record s { access_offset = s.access_offset + length bytes }) rest
At-advance s bytes rest a = record {
  slack = a.slack;
  unread =
      sym (drop-drop s.access_offset (length bytes) s.memory)
      ∙ ap (drop (length bytes)) (a.unread ∙ append_assoc bytes rest a.slack)
      ∙ drop-append bytes (rest ++ a.slack) (length bytes) refl;
  ends = omega (arith, a.ends, length-append bytes rest);
  small = a.small;
  within = a.within;
}

advance_eq :
    (s : ByteStream) (bytes rest : List ℕ)
    → At s (bytes ++ rest)
    → advance (length bytes) s ≡ record s { access_offset = s.access_offset + length bytes }
advance_eq s bytes rest a = ground (arith, length-append bytes rest)

pub Reads-pure : {A : Type 0} (v : A) → Reads (pure v) [] v
Reads-pure v s rest a = ground arith

check_passes :
    (buffer_length access_offset n : ℕ)
    → access_offset + n ≤ buffer_length
    → buffer_length < 2 ^ 64
    → stream_valid_check buffer_length access_offset n ≡ ok tt
unfolding stream_valid_check
check_passes buffer_length access_offset n h small = ground arith

load_prefix :
    (memory : List ℕ) (offset n : ℕ) (bytes rest : List ℕ)
    → drop offset memory ≡ bytes ++ rest
    → n ≡ length bytes
    → offset + n ≤ length memory
    → load memory offset n ≡ ok bytes
unfolding load
load_prefix memory offset n bytes rest e l h =
    ground (arith, ap (take n) e, take-append bytes rest n l)

pub peek_bytes-At :
    (s : ByteStream) (bytes rest : List ℕ)
    → At s (bytes ++ rest)
    → peek_bytes (length bytes) s ≡ ok bytes
unfolding peek_bytes
peek_bytes-At s bytes rest a =
    let sum = length-append bytes rest in
    rw
      (check_passes s.buffer_length s.access_offset (length bytes) (omega (arith, sum, a.ends))
        a.small)
      (load_prefix s.memory s.access_offset (length bytes) bytes (rest ++ a.slack)
        (a.unread ∙ append_assoc bytes rest a.slack) refl (omega (arith, sum, a.ends, a.within)))

pub Reads-bytes : (bytes : List ℕ) → Reads (read_bytes (length bytes)) bytes bytes
unfolding read_bytes
Reads-bytes bytes s rest a =
    rw (peek_bytes-At s bytes rest a) (ap (λ t. ok (bytes, t)) (advance_eq s bytes rest a))

-- A value that fits the width is read back from its bytes.
pub Reads-fixed : (n v : ℕ) → v < 256 ^ n → Reads (read_fixed n) (to_bytes n v) v
unfolding read_fixed peek_fixed
Reads-fixed n v fits s rest a =
    let l = length-to_bytes n v in
    let e : peek_bytes n s ≡ ok (to_bytes n v) =
      ap (λ k. peek_bytes k s) (sym l) ∙ peek_bytes-At s (to_bytes n v) rest a in
    rw e (ground (arith, advance_eq s (to_bytes n v) rest a, l, of_bytes-to_bytes n v fits))

pub Reads-bind :
    {A B : Type 0} (r : Reader A) (k : A → Reader B) (front bs : List ℕ) (v : A) (w : B)
    → Reads r front v
    → Reads (k v) bs w
    → Reads (r >>= k) (front ++ bs) w
Reads-bind r k front bs v w hr hk s rest a =
    let a' : At s (front ++ (bs ++ rest)) = subst (At s) (append_assoc front bs rest) a in
    let t : ByteStream = record s { access_offset = s.access_offset + length front } in
    rw (hr s (bs ++ rest) a') (
      hk t rest (At-advance s front (bs ++ rest) a')
      ∙ ap (λ n. ok (w, record s { access_offset = n })) (omega (arith, length-append front bs)))

abbrev pub IsText : List ℕ → Type 0
IsText = All (λ b. b ≢ 0)

strlen_text : (str rest : List ℕ) → IsText str → strlen (str ++ (0 ∷ rest)) ≡ ok (length str)
unfolding strlen
strlen_text [] rest h = refl
strlen_text (b ∷ str) rest h = ground (arith, strlen_text str rest h.1)

peek_string-At :
    (s : ByteStream) (str rest : List ℕ)
    → At s ((str ++ 0 ∷ []) ++ rest)
    → peek_string_of (length str + 1) s ≡ ok str
unfolding peek_string_of
peek_string-At s str rest a =
    let sum = length-append (str ++ 0 ∷ []) rest in
    let sum' = length-append str (0 ∷ []) in
    let front : drop s.access_offset s.memory ≡ str ++ (0 ∷ (rest ++ a.slack)) =
      a.unread
      ∙ append_assoc (str ++ 0 ∷ []) rest a.slack
      ∙ append_assoc str (0 ∷ []) (rest ++ a.slack) in
    rw
      (check_passes s.buffer_length s.access_offset (length str + 1)
        (omega (arith, sum, sum', a.ends)) a.small)
      (ground (
        arith,
        load_prefix s.memory s.access_offset (length str + 1 - 1) str (0 ∷ (rest ++ a.slack)) front
            (omega arith) (omega (arith, sum, sum', a.ends, a.within)),
      ))

-- A string without a zero byte is read back from its bytes and the zero behind them.
pub Reads-string : (str : List ℕ) → IsText str → Reads read_string (str ++ 0 ∷ []) str
unfolding read_string read_string_of
Reads-string str h s rest a =
    let front : drop s.access_offset s.memory ≡ str ++ (0 ∷ (rest ++ a.slack)) =
      a.unread
      ∙ append_assoc (str ++ 0 ∷ []) rest a.slack
      ∙ append_assoc str (0 ∷ []) (rest ++ a.slack) in
    let len : strlen (drop s.access_offset s.memory) ≡ ok (length str) =
      ap strlen front ∙ strlen_text str (rest ++ a.slack) h in
    rw (len, peek_string-At s str rest a)
      (ground (arith, advance_eq s (str ++ 0 ∷ []) rest a, length-append str (0 ∷ [])))

-- A read of a number throws the exception of StreamValidCheck when fewer bytes are left than it asks
-- for and the offset does not wrap.
pub read_fixed_short :
    (s : ByteStream) (bytes : List ℕ) (n : ℕ)
    → At s bytes
    → length bytes < n
    → s.access_offset + n < 2 ^ 64
    → read_fixed n s ≡ throw packet_dump
unfolding read_fixed peek_fixed peek_bytes stream_valid_check
read_fixed_short s bytes n a h small = ground (arith, a.ends)

pub Reads-last :
    {A B : Type 0} (r : Reader A) (f : A → B) (bytes : List ℕ) (v : A)
    → Reads r bytes v
    → Reads (r >>= λ x. pure (f x)) bytes (f v)
Reads-last r f bytes v h s rest a = rw (h s rest a)
