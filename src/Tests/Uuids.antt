-- ===== src/Tests/Uuids.antt =====
-- The text of a UUID.
use ue4team_project_server.Common.{ℕ, ◌≡◌, refl, List, [], ◌∷◌, set, All, arith, true, ltb, ltb→lt}
use ue4team_project_server.Utility.Uuid.{IsByte, print_from, generate, generate_injective}

abbrev drawn : ℕ → List ℕ
drawn b = 0 ∷ 1 ∷ 15 ∷ 16 ∷ 17 ∷ 31 ∷ 32 ∷ 127 ∷ 128 ∷ 255 ∷ b ∷ 11 ∷ 12 ∷ 13 ∷ 14 ∷ 254 ∷ []

-- Five groups, of 4, 2, 2, 2 and 6 bytes.
abbrev printed : List ℕ
printed =
    b'0' ∷ b'0' ∷ b'0' ∷ b'1' ∷ b'0' ∷ b'f' ∷ b'1' ∷ b'0' ∷ b'-' ∷ b'1' ∷ b'1' ∷ b'1' ∷ b'f' ∷ b'-'
    ∷ b'2' ∷ b'0' ∷ b'7' ∷ b'f' ∷ b'-' ∷ b'8' ∷ b'0' ∷ b'f' ∷ b'f' ∷ b'-' ∷ b'0' ∷ b'4' ∷ b'0'
    ∷ b'b' ∷ b'0' ∷ b'c' ∷ b'0' ∷ b'd' ∷ b'0' ∷ b'e' ∷ b'f' ∷ b'e' ∷ []

text : generate (drawn 7) ≡ printed
unfolding generate print_from
text = refl

agrees : generate (drawn 7) ≡ generate (drawn 9)
unfolding generate print_from
agrees = refl

is_small : (c : ℕ) → ltb c 256 ≡ true → IsByte c
is_small c e = ltb→lt c 256 e

bytes : (b : ℕ) → IsByte b → All IsByte (drawn b)
bytes b h = (
  is_small 0 refl,
  (
    is_small 1 refl,
    (
      is_small 15 refl,
      (
        is_small 16 refl,
        (
          is_small 17 refl,
          (
            is_small 31 refl,
            (
              is_small 32 refl,
              (
                is_small 127 refl,
                (
                  is_small 128 refl,
                  (
                    is_small 255 refl,
                    (
                      h,
                      (
                        is_small 11 refl,
                        (
                          is_small 12 refl,
                          (is_small 13 refl, (is_small 14 refl, (is_small 254 refl, tt))),
                        ),
                      ),
                    ),
                  ),
                ),
              ),
            ),
          ),
        ),
      ),
    ),
  ),
)

generate_injective_example : set (drawn 7) 10 4 ≡ set (drawn 9) 10 4
generate_injective_example =
    generate_injective (drawn 7) (drawn 9) (bytes 7 (omega arith)) (bytes 9 (omega arith)) refl refl
      agrees
