-- ===== src/Matching/Binding.antt =====
-- What a request binds a client to.
use ue4team_project_server.Common.{
  ℕ, ◌+◌, ◌^◌, ◌<◌, ◌≤◌, ◌≡◌, refl, sym, ap, subst, ◌∙◌, Bool, true, false, ◌==◌, Option, none,
  some, List, [], ◌∷◌, ◌++◌, All, arith, Bool-cases, Option-cases, inl, inr, ◌⊎◌, Result, ok,
}
use ue4team_project_server.Matching.Match.{
  State, recruiting, confirming, completed, Seat, Match, join, new_match, sit, has_empty,
}
use ue4team_project_server.Matching.Seats.{
  is_open, IsMatch, Keyed, join-IsMatch, join-Keyed, join_id,
}
use ue4team_project_server.Matching.Service.{
  match_result, to_client, put, MatchSystem, ZoneClient, Event, Service, create_or_find, get_client,
  set_match_weak, find_id, find_map, notify_result, match_join, joined, enter,
}
use ue4team_project_server.Matching.Queue.{IsSystem, put-IsSystem, create_or_find-IsSystem}
use ue4team_project_server.Matching.Lookup.{create_or_find-found, find_id-replace}
use ue4team_project_server.Matching.Leaving.{held, held-sit}

notify_result-Keyed :
    (clients : List ZoneClient) (seats : List Seat)
    → All Keyed seats
    → (events : List Event) × (notify_result clients seats ≡ ok events)
unfolding notify_result
notify_result-Keyed clients [] h = ([], refl)
notify_result-Keyed clients (s ∷ seats) ((key, k), h) =
    let (events, e) = notify_result-Keyed clients seats h in
    (to_client match_result (get_client key clients) ++ events, rw (k, e))

-- The call returns and puts the match into the well-formed queue, and no weak pointer changes.
abbrev PutIn : Match → Service → Result Service → Type 0
PutIn m v r =
    (w : Service) × (r ≡ ok w)
    × IsSystem w.system
    × (w.system ≡ put m v.system)
    × (w.clients ≡ v.clients)

joined-PutIn :
    (m : Match) (b : Bool) (v : Service)
    → IsMatch m
    → m.match_instance_id < v.system.match_id
    → IsSystem v.system
    → (b ≡ false) ⊎ ((b ≡ true) × All Keyed m.seats)
    → PutIn m v (joined (m, b) v)
joined-PutIn m false v i l h k = (_, refl, put-IsSystem m v.system i l h, refl, refl)
joined-PutIn m true v i l h (inl k) = absurd cc
joined-PutIn m true v i l h (inr (_, k)) =
    let (events, e) = notify_result-Keyed v.clients m.seats k in
    (
      record v { system = put m v.system; events = v.events ++ events },
      rw e,
      put-IsSystem m v.system i l h,
      refl,
      refl,
    )

pub match_join-PutIn :
    (key : ℕ) (m : Match) (v : Service)
    → IsMatch m
    → m.match_instance_id < v.system.match_id
    → IsSystem v.system
    → PutIn (join key m).0 v (match_join key m v)
unfolding match_join
match_join-PutIn key m v i l h =
    joined-PutIn (join key m).0 (join key m).1 v (join-IsMatch key m i)
      (omega (arith, join_id key m)) h (join-Keyed key m)

-- The client has a match with this id, if it is there at all.
abbrev pub Pointed : ℕ → Option ZoneClient → Option ZoneClient → Type 0
Pointed id none after = after ≡ none
Pointed id (some c) after = after ≡ some (record c { match = some id })

set_match_weak-Pointed :
    (key id : ℕ) (clients : List ZoneClient)
    → Pointed id (get_client key clients) (get_client key (set_match_weak key (some id) clients))
set_match_weak-Pointed key id [] = refl
set_match_weak-Pointed key id (c ∷ clients) = elim (Bool-cases (c.key == key)) [
  | inl e ↦ rw (e, e) refl
  | inr e ↦ rw (e, e) (set_match_weak-Pointed key id clients)
]

-- The call returns with a well-formed queue. A match of the map stands in it, which the client is bound to, and
-- the client has a seat in it; but if the first match of the map was confirming, it is that one, unchanged.
abbrev pub Bound : ℕ → ℕ → Service → Result Service → Type 0
Bound key mapid v r =
    (w : Service) × (r ≡ ok w)
    × IsSystem w.system
    × ((m : Match) × (m.mapid ≡ mapid)
        × (find_id m.match_instance_id w.system.match_queue ≡ some m)
        × Pointed m.match_instance_id (get_client key v.clients) (get_client key w.clients)
        × ((1 ≤ held key m.seats)
            ⊎ ((m.state ≡ confirming) × (find_map mapid v.system.match_queue ≡ some m))))

join_mapid : (key : ℕ) (m : Match) → (join key m).0.mapid ≡ m.mapid
unfolding join
join_mapid key m = by_state m.state refl
  where
    by_state : (st : State) → m.state ≡ st → (join key m).0.mapid ≡ m.mapid
    by_state recruiting e = elim (Bool-cases (has_empty (sit key m.seats))) [
      | inl f ↦ rw (e, f)
      | inr f ↦ rw (e, f)
    ]
    by_state confirming e = rw e
    by_state completed e = rw e

join-Seated :
    (key : ℕ) (m : Match)
    → IsMatch m
    → (1 ≤ held key (join key m).0.seats) ⊎ ((m.state ≡ confirming) × ((join key m).0 ≡ m))
unfolding join
join-Seated key m h = by_state m.state refl h.standing
  where
    by_state :
        (st : State)
        → m.state ≡ st
        → is_open st m.seats ≡ true
        → (1 ≤ held key (join key m).0.seats) ⊎ ((m.state ≡ confirming) × ((join key m).0 ≡ m))
    by_state recruiting e o = elim (Bool-cases (has_empty (sit key m.seats))) [
      | inl f ↦ rw (e, f) (inl (held-sit key m.seats o))
      | inr f ↦ rw (e, f) (inl (held-sit key m.seats o))
    ]
    by_state confirming e o = inr (e, rw e)
    by_state completed e o = absurd cc

new_or_first :
    (mapid : ℕ) (s : MatchSystem)
    → ((create_or_find mapid s).0.state ≡ recruiting)
      ⊎ (find_map mapid s.match_queue ≡ some (create_or_find mapid s).0)
unfolding create_or_find new_match
new_or_first mapid s = elim (Option-cases (find_map mapid s.match_queue)) [
  | inl e ↦ rw e (inl refl)
  | inr (m, e) ↦ rw e (inr refl)
]

pub enter-Bound :
    (key mapid : ℕ) (v : Service)
    → IsSystem v.system
    → v.system.match_id + 1 < 2 ^ 64
    → Bound key mapid v (enter key (create_or_find mapid v.system) v)
enter-Bound key mapid v h small =
    let m = (create_or_find mapid v.system).0 in
    let (i, l, s) = create_or_find-IsSystem mapid v.system small h in
    let (map, there) = create_or_find-found mapid v.system h in
    let before = record v {
      system = (create_or_find mapid v.system).1;
      clients = set_match_weak key (some m.match_instance_id) v.clients;
    } in
    let (w, e, k, system, clients) = match_join-PutIn key m before i l s in
    (
      w,
      e,
      k,
      (
        (join key m).0,
        join_mapid key m ∙ map,
        ap (λ (t : MatchSystem). find_id (join key m).0.match_instance_id t.match_queue) system
            ∙ find_id-replace (join key m).0 m before.system.match_queue
                (ap (λ n. find_id n before.system.match_queue) (join_id key m) ∙ there),
        subst
            (λ cs.
              Pointed (join key m).0.match_instance_id (get_client key v.clients)
                (get_client key cs))
            (sym clients)
            (subst
              (λ n.
                Pointed n (get_client key v.clients)
                  (get_client key (set_match_weak key (some m.match_instance_id) v.clients)))
              (sym (join_id key m)) (set_match_weak-Pointed key m.match_instance_id v.clients)),
        elim (join-Seated key m i) [
          | inl g ↦ inl g
          | inr (c, same) ↦ elim (new_or_first mapid v.system) [
            | inl new ↦ absurd (different (sym new ∙ c))
            | inr first ↦ inr (ap (λ (x : Match). x.state) same ∙ c, first ∙ ap some (sym same))
          ]
        ],
      ),
    )
  where
    different : recruiting ≡ confirming → ⊥
    different e = cc
