-- ===== src/Utility/Uuid.antt =====
-- UE4DevelopmentLibrary/Utility/UUID.cpp: the text of a new UUID. The four random numbers are an argument, as
-- the sixteen bytes that they have in memory.
use ue4team_project_server.Common.{
  ℕ, ◌+◌, ◌/◌, ◌%◌, ◌<◌, ◌≡◌, ◌≢◌, refl, sym, ◌∙◌, Bool, Bool-cases, inl, inr, ◌||◌, ◌==◌, ltb,
  if◌then◌else◌, List, [], ◌∷◌, ◌++◌, length, set, All, All-set, length-set, arith,
}
use ue4team_project_server.Stream.InputStream.Reads.{IsText}

abbrev pub hex_digit : ℕ → ℕ
hex_digit n = if ltb n 10 then b'0' + n else 87 + n

-- operator<< of an int below 256 to a stream in std::hex.
abbrev pub hex : ℕ → List ℕ
hex n = if ltb n 16 then hex_digit n ∷ [] else hex_digit (n / 16) ∷ hex_digit (n % 16) ∷ []

abbrev pub padded : ℕ → List ℕ
padded byte = if ltb byte 16 then b'0' ∷ hex byte else hex byte

abbrev pub is_behind_dash : ℕ → Bool
is_behind_dash i = i == 4 || i == 6 || i == 8 || i == 10

abbrev pub print_byte : ℕ → ℕ → List ℕ
print_byte i byte = if is_behind_dash i then b'-' ∷ padded byte else padded byte

-- The loop over the bytes, from the one at `i` on.
unfoldable pub print_from : ℕ → List ℕ → List ℕ
print_from i [] = []
print_from i (byte ∷ bytes) = print_byte i byte ++ print_from (i + 1) bytes

unfoldable pub generate : List ℕ → List ℕ
generate bytes = print_from 0 (set bytes 10 4)

abbrev pub IsByte : ℕ → Type 0
IsByte b = b < 256

two_digits : (b : ℕ) → IsByte b → padded b ≡ hex_digit (b / 16) ∷ hex_digit (b % 16) ∷ []
two_digits b h = ground arith

hex_digit_ne : (n : ℕ) → hex_digit n ≢ 0
hex_digit_ne n e = ground arith

hex_digit_injective : (m n : ℕ) → m < 16 → n < 16 → hex_digit m ≡ hex_digit n → m ≡ n
hex_digit_injective m n hm hn e = ground arith

cons_once : (a b : ℕ) (s t : List ℕ) → (a ∷ s) ≡ (b ∷ t) → (a ≡ b) × (s ≡ t)
cons_once a b s t e = ground (arith, e)

cons_twice : (a b c d : ℕ) (s t : List ℕ) → (a ∷ c ∷ s) ≡ (b ∷ d ∷ t) → (a ≡ b) × (c ≡ d) × (s ≡ t)
cons_twice a b c d s t e = ground (arith, e)

cons_both : {a b : ℕ} {s t : List ℕ} → a ≡ b → s ≡ t → (a ∷ s) ≡ (b ∷ t)
cons_both e f = rw (e, f)

padded_injective :
    (a b : ℕ) (s t : List ℕ)
    → IsByte a
    → IsByte b
    → padded a ++ s ≡ padded b ++ t
    → (a ≡ b) × (s ≡ t)
padded_injective a b s t ha hb e =
    let e' : (hex_digit (a / 16) ∷ hex_digit (a % 16) ∷ s)
        ≡ (hex_digit (b / 16) ∷ hex_digit (b % 16) ∷ t) =
      rw (two_digits a ha, two_digits b hb) at e in
    let (high, low, behind) = cons_twice _ _ _ _ s t e' in
    let same_high = hex_digit_injective (a / 16) (b / 16) (omega arith) (omega arith) high in
    let same_low = hex_digit_injective (a % 16) (b % 16) (omega arith) (omega arith) low in
    (omega (arith, same_high, same_low), behind)

print_byte_injective :
    (i a b : ℕ) (s t : List ℕ)
    → IsByte a
    → IsByte b
    → print_byte i a ++ s ≡ print_byte i b ++ t
    → (a ≡ b) × (s ≡ t)
print_byte_injective i a b s t ha hb e = elim (Bool-cases (is_behind_dash i)) [
  | inl dash ↦
      let e' : (b'-' ∷ (padded a ++ s)) ≡ (b'-' ∷ (padded b ++ t)) = rw dash at e in
      padded_injective a b s t ha hb (cons_once _ _ _ _ e').1
  | inr none_there ↦
      let e' : padded a ++ s ≡ padded b ++ t = rw none_there at e in
      padded_injective a b s t ha hb e'
]

print_from_injective :
    (i : ℕ) (xs ys : List ℕ)
    → All IsByte xs
    → All IsByte ys
    → length xs ≡ length ys
    → print_from i xs ≡ print_from i ys
    → xs ≡ ys
unfolding print_from
print_from_injective i [] [] hx hy l e = refl
print_from_injective i [] (y ∷ ys) hx hy l e = absurd (omega arith)
print_from_injective i (x ∷ xs) [] hx hy l e = absurd (omega arith)
print_from_injective i (x ∷ xs) (y ∷ ys) (bx, hx) (by, hy) l e =
    let (same, behind) =
      print_byte_injective i x y (print_from (i + 1) xs) (print_from (i + 1) ys) bx by e in
    cons_both same (print_from_injective (i + 1) xs ys hx hy (omega arith) behind)

-- Two UUIDs have the same text only if the sixteen bytes that they are made of agree, but for the byte that is
-- always set.
pub generate_injective :
    (xs ys : List ℕ)
    → All IsByte xs
    → All IsByte ys
    → length xs ≡ 16
    → length ys ≡ 16
    → generate xs ≡ generate ys
    → set xs 10 4 ≡ set ys 10 4
unfolding generate
generate_injective xs ys hx hy lx ly e =
    print_from_injective 0 (set xs 10 4) (set ys 10 4) (All-set IsByte xs 10 4 hx (omega arith))
      (All-set IsByte ys 10 4 hy (omega arith))
      (length-set xs 10 4 ∙ lx ∙ sym (length-set ys 10 4 ∙ ly)) e

padded-IsText : (b : ℕ) → IsByte b → (s : List ℕ) → IsText s → IsText (padded b ++ s)
padded-IsText b h s t = rw (two_digits b h) (hex_digit_ne (b / 16), (hex_digit_ne (b % 16), t))

print_from-IsText : (i : ℕ) (bytes : List ℕ) → All IsByte bytes → IsText (print_from i bytes)
unfolding print_from
print_from-IsText i [] h = tt
print_from-IsText i (b ∷ bytes) (hb, h) = elim (Bool-cases (is_behind_dash i)) [
  | inl dash ↦ rw dash (
    (λ e. absurd (omega (arith, e))),
    padded-IsText b hb (print_from (i + 1) bytes) (print_from-IsText (i + 1) bytes h),
  )
  | inr none_there ↦
      rw none_there
        (padded-IsText b hb (print_from (i + 1) bytes) (print_from-IsText (i + 1) bytes h))
]

-- The text of a UUID has no zero byte, so that it is read whole wherever it is written as a string.
pub generate-IsText : (bytes : List ℕ) → All IsByte bytes → IsText (generate bytes)
unfolding generate
generate-IsText bytes h =
    print_from-IsText 0 (set bytes 10 4) (All-set IsByte bytes 10 4 h (omega arith))
