-- ===== src/Matching/Leaving.antt =====
-- How many seats of a match a client has, before and after it sits down or leaves.
use ue4team_project_server.Common.{
  ℕ, ◌+◌, ◌≤◌, ◌≡◌, refl, true, false, ◌==◌, if◌then◌else◌, Option, none, some, List, [], ◌∷◌,
  arith, Bool-cases, inl, inr, ◌⊎◌,
}
use ue4team_project_server.Matching.Match.{Seat, is_key, is_taken, has_empty, all_empty, sit, leave}

abbrev pub occupies : ℕ → Option ℕ → ℕ
occupies key none = 0
occupies key (some k) = if k == key then 1 else 0

-- The seats of the client.
abbrev pub held : ℕ → List Seat → ℕ
held key [] = 0
held key (s ∷ seats) = occupies key s.client_key + held key seats

abbrev pub occupied : Option ℕ → ℕ
occupied none = 0
occupied (some k) = 1

-- The seats of all clients.
abbrev pub taken : List Seat → ℕ
taken [] = 0
taken (s ∷ seats) = occupied s.client_key + taken seats

-- One less, if there was one.
abbrev pub Fewer : ℕ → ℕ → Type 0
Fewer before after = (before ≡ after + 1) ⊎ ((before ≡ 0) × (after ≡ 0))

free : (key : ℕ) (k : Option ℕ) → is_taken k ≡ false → (occupies key k ≡ 0) × (occupied k ≡ 0)
free key none e = (refl, refl)
free key (some k) e = absurd cc

own : (key : ℕ) (k : Option ℕ) → is_key key k ≡ true → (occupies key k ≡ 1) × (occupied k ≡ 1)
own key none e = absurd cc
own key (some k) e = (rw e, refl)

other : (key : ℕ) (k : Option ℕ) → is_key key k ≡ false → occupies key k ≡ 0
other key none e = refl
other key (some k) e = rw e

pub held-sit : (key : ℕ) (seats : List Seat) → has_empty seats ≡ true → 1 ≤ held key (sit key seats)
held-sit key [] e = absurd cc
held-sit key (s ∷ seats) e = elim (Bool-cases (is_taken s.client_key)) [
  | inl t ↦
      let rest : has_empty seats ≡ true = ground (arith, e, t) in
      let more = held-sit key seats rest in rw t (omega (arith, more))
  | inr t ↦ rw t (own_seat key (held key seats))
]
  where
    own_seat : (key n : ℕ) → 1 ≤ occupies key (some key) + n
    own_seat key n = ground arith

pub held-leave : (key : ℕ) (seats : List Seat) → Fewer (held key seats) (held key (leave key seats))
held-leave key [] = inr (refl, refl)
held-leave key (s ∷ seats) = elim (Bool-cases (is_key key s.client_key)) [
  | inl e ↦ rw e (inl (omega (arith, (own key s.client_key e).0)))
  | inr e ↦
      let none_here = other key s.client_key e in
      rw e (elim (held-leave key seats) [
        | inl f ↦ inl (omega (arith, f))
        | inr (f, g) ↦ inr (omega (arith, f, none_here), omega (arith, g, none_here))
      ])
]

pub all_empty-taken : (seats : List Seat) → all_empty seats ≡ true → taken seats ≡ 0
all_empty-taken [] e = refl
all_empty-taken (s ∷ seats) e = elim (Bool-cases (is_taken s.client_key)) [
  | inl t ↦ absurd (ground (arith, e, t))
  | inr t ↦
      let rest : all_empty seats ≡ true = ground (arith, e, t) in
      omega (arith, (free 0 s.client_key t).1, all_empty-taken seats rest)
]

someone : (k : Option ℕ) → is_taken k ≡ true → occupied k ≡ 1
someone none e = absurd cc
someone (some k) e = refl

pub not_empty-taken : (seats : List Seat) → all_empty seats ≡ false → 1 ≤ taken seats
not_empty-taken [] e = absurd cc
not_empty-taken (s ∷ seats) e = elim (Bool-cases (is_taken s.client_key)) [
  | inl t ↦ omega (arith, someone s.client_key t)
  | inr t ↦
      let rest : all_empty seats ≡ false = ground (arith, e, t) in
      omega (arith, not_empty-taken seats rest)
]

-- The seats of others are as many as before.
pub taken-leave :
    (key : ℕ) (seats : List Seat)
    → taken seats + held key (leave key seats) ≡ taken (leave key seats) + held key seats
taken-leave key [] = refl
taken-leave key (s ∷ seats) = elim (Bool-cases (is_key key s.client_key)) [
  | inl e ↦ let (a, b) = own key s.client_key e in rw e (omega (arith, a, b))
  | inr e ↦ rw e (omega (arith, taken-leave key seats))
]

held_one : (key : ℕ) (k : Option ℕ) → occupies key k ≤ occupied k
held_one key none = omega arith
held_one key (some k) = ground arith

pub held-taken : (key : ℕ) (seats : List Seat) → held key seats ≤ taken seats
held-taken key [] = omega arith
held-taken key (s ∷ seats) = omega (arith, held_one key s.client_key, held-taken key seats)
