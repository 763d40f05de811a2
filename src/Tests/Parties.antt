-- ===== src/Tests/Parties.antt =====
-- Client 5 and its party.
use ue4team_project_server.Common.{◌≡◌, refl, true, some, [], ◌∷◌}
use ue4team_project_server.Party.System.{
  PartySystem, create_party, join_party, leave_party, find_party,
}
use ue4team_project_server.Party.Members.{
  joins, creates, calls, empty_party, join_and_leave, empty_party_stays,
}

abbrev one_party : PartySystem
one_party = record {
  next_id = 1;
  party_array = record { party_id = 0; party_leader_uuid = 5; party_user = 5 ∷ [] } ∷ [];
}

creating : create_party 5 (record { next_id = 0; party_array = [] }) ≡ (some 0, one_party)
unfolding create_party
creating = refl

join_and_leave_example :
    ((join_party 0 6 one_party).0 ≡ true)
    × (leave_party 0 6 (join_party 0 6 one_party).1 ≡ (true, one_party))
join_and_leave_example = join_and_leave 0 6 5 [] 5 one_party refl refl

abbrev left_party : PartySystem
left_party = record { next_id = 1; party_array = empty_party 0 5 ∷ [] }

leaving : leave_party 0 5 one_party ≡ (true, left_party)
unfolding leave_party
leaving = refl

empty_party_stays_example :
    find_party 0 (calls (joins 0 6 ∷ creates 6 ∷ []) left_party).party_array
    ≡ some (empty_party 0 5)
empty_party_stays_example = empty_party_stays (joins 0 6 ∷ creates 6 ∷ []) 0 5 left_party refl
