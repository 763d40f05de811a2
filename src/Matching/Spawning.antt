-- ===== src/Matching/Spawning.antt =====
-- The spawn of a match's clients when the last of them confirms, and the clients that have no character.
use ue4team_project_server.Common.{
  ℕ, ◌≡◌, refl, Bool, true, false, not, ◌||◌, fault, ◌>>=◌, Option, none, some, List, [], ◌∷◌, ◌++◌,
  All, Bool-cases, inl, inr, ◌⊎◌, ok,
}
use ue4team_project_server.Matching.Match.{Seat}
use ue4team_project_server.Matching.Seats.{Keyed}
use ue4team_project_server.Matching.Service.{
  spawned, spawn_client, ZoneClient, Event, get_client, spawn_all,
}

-- A seat's client is there and has no character.
abbrev pub is_without_character : Option ZoneClient → Bool
is_without_character none = false
is_without_character (some c) = not c.has_character

abbrev pub lacks_character : List ZoneClient → Option ℕ → Bool
lacks_character clients none = false
lacks_character clients (some key) = is_without_character (get_client key clients)

abbrev pub someone_lacks : List ZoneClient → List Seat → Bool
someone_lacks clients [] = false
someone_lacks clients (s ∷ seats) =
    lacks_character clients s.client_key || someone_lacks clients seats

-- The seats, all taken, are spawned, unless the client of one has no character.
pub spawn_everyone :
    (clients : List ZoneClient) (seats : List Seat)
    → All Keyed seats
    → ((someone_lacks clients seats ≡ false)
        × ((events : List Event) × (spawn_all clients seats ≡ ok events)))
      ⊎ ((someone_lacks clients seats ≡ true) × (spawn_all clients seats ≡ fault))
unfolding spawn_all
spawn_everyone clients [] h = inl (refl, ([], refl))
spawn_everyone clients (s ∷ seats) ((key, k), h) =
    rw k (with_client (get_client key clients) (spawn_everyone clients seats h))
  where
    with_client :
        (c : Option ZoneClient)
        → ((someone_lacks clients seats ≡ false)
            × ((events : List Event) × (spawn_all clients seats ≡ ok events)))
          ⊎ ((someone_lacks clients seats ≡ true) × (spawn_all clients seats ≡ fault))
        → (((is_without_character c || someone_lacks clients seats) ≡ false)
            × ((events : List Event) × ((spawn_client c >>= λ first.
                    spawn_all clients seats >>= λ others. ok (first ++ others))
                  ≡ ok events)))
          ⊎ (((is_without_character c || someone_lacks clients seats) ≡ true)
              × ((spawn_client c >>= λ first.
                    spawn_all clients seats >>= λ others. ok (first ++ others))
                  ≡ fault))
    with_client none (inl (e, (events, r))) = inl (e, (events, rw r))
    with_client none (inr (e, r)) = inr (e, rw r)
    with_client (some c) rest = elim (Bool-cases c.has_character) [
      | inl has ↦ elim rest [
        | inl (e, (events, r)) ↦ inl (rw has e, (spawned c.key ∷ events, rw (has, r)))
        | inr (e, r) ↦ inr (rw has e, rw (has, r))
      ]
      | inr lacks ↦ inr (rw lacks, rw lacks)
    ]
