-- ===== src/Party/System.antt =====
-- UE4Model/System/PartySystem.cpp: Party::System over its array of parties. A client is its UUID, as a
-- number.
use ue4team_project_server.Common.{
  ℕ, ◌+◌, ◌%◌, ◌^◌, Bool, true, false, ◌==◌, if◌then◌else◌, Option, none, some, List, [], ◌∷◌, ◌++◌,
}

pub record Party : Type 0 where
  pub party_id : ℕ
  pub party_leader_uuid : ℕ
  pub party_user : List ℕ

-- `next_id` is the counter of GetNewPartyId.
pub record PartySystem : Type 0 where
  pub next_id : ℕ
  pub party_array : List Party

-- The party after a call that succeeded.
abbrev pub update : Party → List Party → List Party
update new [] = []
update new (p ∷ parties) =
    if p.party_id == new.party_id then new ∷ parties else p ∷ update new parties

abbrev pub find_party : ℕ → List Party → Option Party
find_party party_id [] = none
find_party party_id (p ∷ parties) =
    if p.party_id == party_id then some p else find_party party_id parties

unfoldable pub create_party : ℕ → PartySystem → Option ℕ × PartySystem
create_party client s = (
  some s.next_id,
  record {
    next_id = (s.next_id + 1) % 2 ^ 64;
    party_array =
        s.party_array
        ++ record { party_id = s.next_id; party_leader_uuid = client; party_user = client ∷ [] }
          ∷ [];
  },
)

-- It does nothing.
abbrev pub disband_party : ℕ → ℕ → PartySystem → PartySystem
disband_party party_id chr_cid s = s

abbrev pub put_users : Party → List ℕ → PartySystem → PartySystem
put_users p users s = record s {
  party_array = update (record p { party_user = users }) s.party_array;
}

abbrev pub join_users : Party → List ℕ → ℕ → PartySystem → Bool × PartySystem
join_users p [] client s = (false, s)
join_users p (u ∷ users) client s = (true, put_users p ((u ∷ users) ++ client ∷ []) s)

abbrev pub join_found : Option Party → ℕ → PartySystem → Bool × PartySystem
join_found none client s = (false, s)
join_found (some p) client s = join_users p p.party_user client s

unfoldable pub join_party : ℕ → ℕ → PartySystem → Bool × PartySystem
join_party party_id client s = join_found (find_party party_id s.party_array) client s

abbrev pub is_user : ℕ → List ℕ → Bool
is_user uuid [] = false
is_user uuid (u ∷ users) = if u == uuid then true else is_user uuid users

abbrev pub erase_user : ℕ → List ℕ → List ℕ
erase_user uuid [] = []
erase_user uuid (u ∷ users) = if u == uuid then users else u ∷ erase_user uuid users

abbrev pub leave_found : Option Party → ℕ → PartySystem → Bool × PartySystem
leave_found none uuid s = (false, s)
leave_found (some p) uuid s =
    if is_user uuid p.party_user
    then (true, put_users p (erase_user uuid p.party_user) s)
    else (false, s)

unfoldable pub leave_party : ℕ → ℕ → PartySystem → Bool × PartySystem
leave_party party_id uuid s = leave_found (find_party party_id s.party_array) uuid s
