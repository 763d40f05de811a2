-- ===== src/Matching/Withdrawal.antt =====
-- What the withdrawal of a client leaves of its match.
use ue4team_project_server.Common.{
  ℕ, ◌+◌, ◌<◌, ◌≤◌, ◌≡◌, refl, sym, subst, Bool, true, false, Option, none, some, arith, Bool-cases,
  inl, inr, ◌⊎◌, Result, ok,
}
use ue4team_project_server.Matching.Match.{all_empty, leave, Match, remove}
use ue4team_project_server.Matching.Seats.{IsMatch, remove-IsMatch, remove_id}
use ue4team_project_server.Matching.Service.{
  remove_match, lock, match_of_client, MatchSystem, ZoneClient, Service, find_id, match_remove,
  removed,
}
use ue4team_project_server.Matching.Queue.{
  IsSystem, find_id-All, put-IsSystem, remove_match-IsSystem,
}
use ue4team_project_server.Matching.Lookup.{find_id-erase_id, find_id-replace, find_id-id}
use ue4team_project_server.Matching.Leaving.{
  held, taken, Fewer, held-taken, held-leave, taken-leave, all_empty-taken, not_empty-taken,
}

removed-IsSystem :
    (m : Match) (b : Bool) (v : Service)
    → IsMatch m
    → m.match_instance_id < v.system.match_id
    → IsSystem v.system
    → IsSystem (removed (m, b) v).system
removed-IsSystem m false v i l h = put-IsSystem m v.system i l h
removed-IsSystem m true v i l h = remove_match-IsSystem m.match_instance_id v.system h

pub match_remove-IsSystem :
    (key : ℕ) (m : Match) (v : Service)
    → IsMatch m
    → m.match_instance_id < v.system.match_id
    → IsSystem v.system
    → IsSystem (match_remove key m v).system
unfolding match_remove
match_remove-IsSystem key m v i l h =
    removed-IsSystem (remove key m).0 (remove key m).1 v (remove-IsMatch key m i)
      (omega (arith, remove_id key m)) h

-- The match of a client is one of the queue.
pub match_in_queue :
    (c : Option ZoneClient) (s : MatchSystem) (m : Match)
    → IsSystem s
    → match_of_client c s ≡ some m
    → IsMatch m
      × (m.match_instance_id < s.match_id)
      × (find_id m.match_instance_id s.match_queue ≡ some m)
match_in_queue none s m h e = absurd cc
match_in_queue (some c) s m h e = locked c.match s m h e
  where
    locked :
        (id : Option ℕ) (s : MatchSystem) (m : Match)
        → IsSystem s
        → lock id s ≡ some m
        → IsMatch m
          × (m.match_instance_id < s.match_id)
          × (find_id m.match_instance_id s.match_queue ≡ some m)
    locked none s m h e = absurd cc
    locked (some id) s m h e = (
      find_id-All _ id s.match_queue m h.matches e,
      find_id-All _ id s.match_queue m h.below e,
      subst (λ n. find_id n s.match_queue ≡ some m) (sym (find_id-id id s.match_queue m e)) e,
    )

-- The call returns with a well-formed queue and changes no weak pointer. If the client alone had a seat of the
-- match or nobody had one, the match is not in the queue any more; otherwise it is, and the client has one seat
-- less, if it had one, and the others have theirs.
abbrev pub Left : ℕ → Match → Service → Result Service → Type 0
Left key m v r =
    (w : Service) × (r ≡ ok w)
    × IsSystem w.system
    × (w.clients ≡ v.clients)
    × (((find_id m.match_instance_id w.system.match_queue ≡ none)
          × (taken m.seats ≡ held key m.seats)
          × (held key m.seats ≤ 1))
        ⊎ ((after : Match) × (find_id m.match_instance_id w.system.match_queue ≡ some after)
            × (1 ≤ taken after.seats)
            × Fewer (held key m.seats) (held key after.seats)
            × (taken m.seats + held key after.seats ≡ taken after.seats + held key m.seats)))

pub match_remove-Left :
    (key : ℕ) (m : Match) (v : Service)
    → IsMatch m
    → m.match_instance_id < v.system.match_id
    → find_id m.match_instance_id v.system.match_queue ≡ some m
    → IsSystem v.system
    → Left key m v (ok (match_remove key m v))
unfolding match_remove remove remove_match
match_remove-Left key m v i l there h = elim (Bool-cases (all_empty (leave key m.seats))) [
  | inl e ↦
      let gone = all_empty-taken (leave key m.seats) e in
      let counts = taken-leave key m.seats in
      let few = held-taken key (leave key m.seats) in
      (
        match_remove key m v,
        refl,
        match_remove-IsSystem key m v i l h,
        rw e,
        rw e (
            inl (
              find_id-erase_id m.match_instance_id v.system.match_queue h.unique,
              omega (arith, gone, counts, few),
              at_most (held-leave key m.seats) (omega (arith, gone, few)),
            )),
      )
  | inr e ↦ (
    match_remove key m v,
    refl,
    match_remove-IsSystem key m v i l h,
    rw e,
    rw e (
        inr (
          record m { seats = leave key m.seats },
          find_id-replace (record m { seats = leave key m.seats }) m v.system.match_queue there,
          not_empty-taken (leave key m.seats) e,
          held-leave key m.seats,
          taken-leave key m.seats,
        )),
  )
]
  where
    at_most :
        Fewer (held key m.seats) (held key (leave key m.seats))
        → held key (leave key m.seats) ≡ 0
        → held key m.seats ≤ 1
    at_most (inl f) z = omega (arith, f, z)
    at_most (inr (f, _)) z = omega (arith, f)
