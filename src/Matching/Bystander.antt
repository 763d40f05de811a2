-- ===== src/Matching/Bystander.antt =====
-- A client that asks for a map while the match of that map waits for confirmations.
use ue4team_project_server.Common.{
  ◌^◌, ◌%◌, ◌+◌, ◌>>=◌, List, ==_refl, ℕ, ◌≡◌, ◌≢◌, true, false, none, [], ◌∷◌, ok,
}
use ue4team_project_server.ZoneSystem.Tables.{Tables}
use ue4team_project_server.Matching.Match.{confirming, recruiting, Match, join, new_match}
use ue4team_project_server.Matching.Service.{
  remove_match, cancel_all, match_canceled, match_confirm, handle_matching_confirm_request, Event,
  ZoneClient, Service, match_result, create_or_find, handle_matching_request, match_join,
  notify_result,
}
use ue4team_project_server.Matching.Progress.{eq_false, matched, seat, free_seat, dungeon}

abbrev pub idle : ℕ → ZoneClient
idle key = record { key = key; match = none; has_character = true }

abbrev pub for_three : ℕ → List Match → ZoneClient → ZoneClient → ZoneClient → List Event → Service
for_three next queue a b c events = record {
  system = record { match_id = next; match_queue = queue };
  clients = a ∷ b ∷ c ∷ [];
  events = events;
}

module _ (id a b c mapid : ℕ) (ab : a ≢ b) (ac : a ≢ c) (bc : b ≢ c) where
  abbrev next : ℕ
  next = (id + 1) % 2 ^ 64

  abbrev asked : ZoneClient → Service
  asked third =
      for_three next (dungeon confirming id mapid (seat a false) (seat b false) ∷ []) (matched id a)
        (matched id b) third (match_result a ∷ match_result b ∷ [])

  first_request :
      handle_matching_request a true mapid (for_three id [] (idle a) (idle b) (idle c) [])
      ≡ ok (
          for_three next
            (dungeon recruiting id mapid (seat a false) free_seat ∷ [])
            (matched id a)
            (idle b)
            (idle c)
            [])
  unfolding handle_matching_request match_join join create_or_find new_match
  first_request = simp (==_refl a, ==_refl id)

  second_request :
      handle_matching_request b true mapid (
        for_three next
          (dungeon recruiting id mapid (seat a false) free_seat ∷ [])
          (matched id a)
          (idle b)
          (idle c)
          [])
      ≡ ok (asked (idle c))
  unfolding handle_matching_request match_join join create_or_find notify_result
  second_request = simp (==_refl a, ==_refl b, ==_refl mapid, ==_refl id, eq_false a b ab)

  third_request : handle_matching_request c true mapid (asked (idle c)) ≡ ok (asked (matched id c))
  unfolding handle_matching_request match_join join create_or_find
  third_request = simp (==_refl c, ==_refl mapid, ==_refl id, eq_false a c ac, eq_false b c bc)

  refusal :
      (tables : Tables)
      → handle_matching_confirm_request tables c false (asked (matched id c))
        ≡ ok (
            for_three next []
              (idle a)
              (idle b)
              (matched id c)
              (match_result a ∷ match_result b ∷ match_canceled a ∷ match_canceled b ∷ []))
  unfolding handle_matching_confirm_request match_confirm cancel_all remove_match
  refusal tables = simp (
    ==_refl a,
    ==_refl b,
    ==_refl c,
    ==_refl id,
    eq_false a b ab,
    eq_false a c ac,
    eq_false b c bc,
  )

-- Two clients have asked for a map and are asked to confirm when a third one asks for the same map: it gets no
-- seat and is told nothing, but is bound to their match; when it then refuses, the match is taken out of the
-- queue and the other two are released and told so, whereas the third one keeps its weak pointer and is told
-- nothing. This is so whatever the tables and the id of the match, if the keys of the clients differ.
pub bystander_cancels :
    (tables : Tables) (id a b c mapid : ℕ)
    → a ≢ b
    → a ≢ c
    → b ≢ c
    → ((handle_matching_request a true mapid (for_three id [] (idle a) (idle b) (idle c) [])
          >>= λ v1. handle_matching_request b true mapid v1 >>= λ v2.
              handle_matching_request c true mapid v2)
        ≡ ok (
            for_three
              ((id + 1) % 2 ^ 64)
              (dungeon confirming id mapid (seat a false) (seat b false) ∷ [])
              (matched id a)
              (matched id b)
              (matched id c)
              (match_result a ∷ match_result b ∷ [])))
      × (handle_matching_confirm_request tables c false (
            for_three
              ((id + 1) % 2 ^ 64)
              (dungeon confirming id mapid (seat a false) (seat b false) ∷ [])
              (matched id a)
              (matched id b)
              (matched id c)
              (match_result a ∷ match_result b ∷ []))
          ≡ ok (
              for_three
                ((id + 1) % 2 ^ 64)
                []
                (idle a)
                (idle b)
                (matched id c)
                (match_result a ∷ match_result b ∷ match_canceled a ∷ match_canceled b ∷ [])))
bystander_cancels tables id a b c mapid ab ac bc = (
  rw (
    first_request id a b c mapid ab ac bc,
    second_request id a b c mapid ab ac bc,
    third_request id a b c mapid ab ac bc,
  ),
  refusal id a b c mapid ab ac bc tables,
)
