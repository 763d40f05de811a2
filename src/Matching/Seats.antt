-- ===== src/Matching/Seats.antt =====
-- What `Join`, `Remove` and `Confirm` of a match do to its seats.
use ue4team_project_server.Common.{
  ◌⊎◌, or_true, ℕ, ◌≡◌, refl, Bool, true, false, not, ◌&&◌, ◌||◌, Option, none, some, List, [], ◌∷◌,
  length, All, Bool-cases, inl, inr, ◌∙◌,
}
use ue4team_project_server.Matching.Match.{
  seated, State, recruiting, confirming, completed, Seat, Match, max_match_count, is_recruiting,
  is_key, is_taken, has_empty, all_confirmed, sit, leave, mark, join, remove, confirm,
}

-- A mark stands only on a taken seat.
abbrev pub sound_seat : Seat → Bool
sound_seat s = not s.confirmed || is_taken s.client_key

abbrev pub is_open : State → List Seat → Bool
is_open recruiting seats = has_empty seats
is_open confirming seats = true
is_open completed seats = false

-- Two seats with sound marks; a match that recruits has an empty seat, and a completed one is none of
-- the queue.
pub record IsMatch (m : Match) : Type 0 where
  pub two_seats : length m.seats ≡ max_match_count
  pub sound : All (λ s. sound_seat s ≡ true) m.seats
  pub standing : is_open m.state m.seats ≡ true

-- A seat whose client has confirmed.
abbrev pub Agreed : Seat → Type 0
Agreed s = (key : ℕ) × (s.client_key ≡ some key) × (s.confirmed ≡ true)

length-sit : (key : ℕ) (seats : List Seat) → length (sit key seats) ≡ length seats
length-sit key [] = refl
length-sit key (s ∷ seats) = elim (Bool-cases (is_taken s.client_key)) [
  | inl e ↦ rw (e, length-sit key seats)
  | inr e ↦ rw e
]

length-leave : (key : ℕ) (seats : List Seat) → length (leave key seats) ≡ length seats
length-leave key [] = refl
length-leave key (s ∷ seats) = elim (Bool-cases (is_key key s.client_key)) [
  | inl e ↦ rw e
  | inr e ↦ rw (e, length-leave key seats)
]

length-mark : (key : ℕ) (seats : List Seat) → length (mark key seats) ≡ length seats
length-mark key [] = refl
length-mark key (s ∷ seats) = elim (Bool-cases (is_key key s.client_key)) [
  | inl e ↦ rw e
  | inr e ↦ rw (e, length-mark key seats)
]

abbrev Sound : List Seat → Type 0
Sound seats = All (λ s. sound_seat s ≡ true) seats

sit-Sound : (key : ℕ) (seats : List Seat) → Sound seats → Sound (sit key seats)
sit-Sound key [] h = tt
sit-Sound key (s ∷ seats) h = elim (Bool-cases (is_taken s.client_key)) [
  | inl e ↦ rw e (h.0, sit-Sound key seats h.1)
  | inr e ↦ rw e (or_true (not s.confirmed), h.1)
]

leave-Sound : (key : ℕ) (seats : List Seat) → Sound seats → Sound (leave key seats)
leave-Sound key [] h = tt
leave-Sound key (s ∷ seats) h = elim (Bool-cases (is_key key s.client_key)) [
  | inl e ↦ rw e (refl, h.1)
  | inr e ↦ rw e (h.0, leave-Sound key seats h.1)
]

is_key-taken : (key : ℕ) (k : Option ℕ) → is_key key k ≡ true → is_taken k ≡ true
is_key-taken key none e = e
is_key-taken key (some k) e = refl

mark-Sound : (key : ℕ) (seats : List Seat) → Sound seats → Sound (mark key seats)
mark-Sound key [] h = tt
mark-Sound key (s ∷ seats) h = elim (Bool-cases (is_key key s.client_key)) [
  | inl e ↦ rw e (is_key-taken key s.client_key e, h.1)
  | inr e ↦ rw e (h.0, mark-Sound key seats h.1)
]

or_elim : (t b : Bool) → t ≡ true → (not t || b) ≡ true → b ≡ true
or_elim true b p q = q
or_elim false b p q = cc

and_both : (t b : Bool) → (t && b) ≡ true → (t ≡ true) × (b ≡ true)
and_both true b p = (refl, p)
and_both false b p = cc

leave-has_empty :
    (key : ℕ) (seats : List Seat) → has_empty seats ≡ true → has_empty (leave key seats) ≡ true
leave-has_empty key [] h = h
leave-has_empty key (s ∷ seats) h = elim (Bool-cases (is_key key s.client_key)) [
  | inl e ↦ rw e
  | inr e ↦ elim (Bool-cases (is_taken s.client_key)) [
    | inl t ↦ rw (e, t) (leave-has_empty key seats (or_elim _ _ t h))
    | inr t ↦ rw (e, t)
  ]
]

mark-has_empty : (key : ℕ) (seats : List Seat) → has_empty (mark key seats) ≡ has_empty seats
mark-has_empty key [] = refl
mark-has_empty key (s ∷ seats) = elim (Bool-cases (is_key key s.client_key)) [
  | inl e ↦ rw e
  | inr e ↦ rw (e, mark-has_empty key seats)
]

taken_key : (k : Option ℕ) → is_taken k ≡ true → (key : ℕ) × (k ≡ some key)
taken_key none e = absurd cc
taken_key (some key) e = (key, refl)

pub all_confirmed-Agreed :
    (seats : List Seat) → Sound seats → all_confirmed seats ≡ true → All Agreed seats
all_confirmed-Agreed [] h e = tt
all_confirmed-Agreed (s ∷ seats) h e =
    let (sc, rest) = and_both s.confirmed (all_confirmed seats) e in
    let (key, k) = taken_key s.client_key (or_elim s.confirmed (is_taken s.client_key) sc h.0) in
    ((key, k, sc), all_confirmed-Agreed seats h.1 rest)

abbrev pub Keyed : Seat → Type 0
Keyed s = (key : ℕ) × (s.client_key ≡ some key)

full_first :
    (k : Option ℕ) (b : Bool)
    → (not (is_taken k) || b) ≡ false
    → ((key : ℕ) × (k ≡ some key)) × (b ≡ false)
full_first none b e = absurd cc
full_first (some key) b e = ((key, refl), e)

full-Keyed : (seats : List Seat) → has_empty seats ≡ false → All Keyed seats
full-Keyed [] e = tt
full-Keyed (s ∷ seats) e =
    let (first, rest) = full_first s.client_key (has_empty seats) e in
    (first, full-Keyed seats rest)

seated-IsMatch :
    (m : Match) (seats : List Seat)
    → is_recruiting m.state ≡ true
    → length seats ≡ max_match_count
    → Sound seats
    → IsMatch (seated m seats).0
seated-IsMatch m seats r l h = elim (Bool-cases (has_empty seats)) [
  | inl e ↦ rw e (record { two_seats = l; sound = h; standing = still_open m.state seats r e })
  | inr e ↦ rw e (record { two_seats = l; sound = h; standing = refl })
]
  where
    still_open :
        (st : State) (seats : List Seat)
        → is_recruiting st ≡ true
        → has_empty seats ≡ true
        → is_open st seats ≡ true
    still_open recruiting seats r e = e
    still_open confirming seats r e = refl
    still_open completed seats r e = cc

pub join-IsMatch : (key : ℕ) (m : Match) → IsMatch m → IsMatch (join key m).0
unfolding join
join-IsMatch key m h = elim (Bool-cases (is_recruiting m.state)) [
  | inl r ↦ rw r (
      seated-IsMatch m (sit key m.seats) r (length-sit key m.seats ∙ h.two_seats)
        (sit-Sound key m.seats h.sound))
  | inr r ↦ rw r h
]

-- The clients are asked to confirm only when no seat is empty.
pub join-Keyed :
    (key : ℕ) (m : Match)
    → ((join key m).1 ≡ false) ⊎ (((join key m).1 ≡ true) × All Keyed (join key m).0.seats)
unfolding join
join-Keyed key m = elim (Bool-cases (is_recruiting m.state)) [
  | inl r ↦ elim (Bool-cases (has_empty (sit key m.seats))) [
    | inl f ↦ rw (r, f) (inl refl)
    | inr f ↦ rw (r, f) (inr (refl, full-Keyed (sit key m.seats) f))
  ]
  | inr r ↦ rw r (inl refl)
]

still_standing :
    (st : State) (before after : List Seat)
    → (has_empty before ≡ true → has_empty after ≡ true)
    → is_open st before ≡ true
    → is_open st after ≡ true
still_standing recruiting before after h e = h e
still_standing confirming before after h e = refl
still_standing completed before after h e = e

pub remove-IsMatch : (key : ℕ) (m : Match) → IsMatch m → IsMatch (remove key m).0
unfolding remove
remove-IsMatch key m h = record {
  two_seats = length-leave key m.seats ∙ h.two_seats;
  sound = leave-Sound key m.seats h.sound;
  standing =
      still_standing m.state m.seats (leave key m.seats) (leave-has_empty key m.seats) h.standing;
}

-- A confirmation that opens no dungeon keeps the match well formed, and one that does leaves every
-- seat with a client that has confirmed.
pub confirm-IsMatch :
    (key : ℕ) (m : Match)
    → IsMatch m
    → (((confirm key m).1 ≡ false) × IsMatch (confirm key m).0)
      ⊎ (((confirm key m).1 ≡ true) × All Agreed (confirm key m).0.seats)
unfolding confirm
confirm-IsMatch key m h = elim (Bool-cases (all_confirmed (mark key m.seats))) [
  | inl e ↦
      rw e (inr (refl, all_confirmed-Agreed (mark key m.seats) (mark-Sound key m.seats h.sound) e))
  | inr e ↦ rw e (
      inl (
        refl,
        record {
          two_seats = length-mark key m.seats ∙ h.two_seats;
          sound = mark-Sound key m.seats h.sound;
          standing =
              still_standing m.state m.seats (mark key m.seats)
                (λ q. mark-has_empty key m.seats ∙ q) h.standing;
        },
      ))
]

pub join_id : (key : ℕ) (m : Match) → (join key m).0.match_instance_id ≡ m.match_instance_id
unfolding join
join_id key m = elim (Bool-cases (is_recruiting m.state)) [
  | inl r ↦ elim (Bool-cases (has_empty (sit key m.seats))) [
    | inl f ↦ rw (r, f)
    | inr f ↦ rw (r, f)
  ]
  | inr r ↦ rw r
]

pub remove_id : (key : ℕ) (m : Match) → (remove key m).0.match_instance_id ≡ m.match_instance_id
unfolding remove
remove_id key m = refl

pub confirm_id : (key : ℕ) (m : Match) → (confirm key m).0.match_instance_id ≡ m.match_instance_id
unfolding confirm
confirm_id key m = elim (Bool-cases (all_confirmed (mark key m.seats))) [
  | inl e ↦ rw e
  | inr e ↦ rw e
]
