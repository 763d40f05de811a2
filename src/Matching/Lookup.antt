-- ===== src/Matching/Lookup.antt =====
-- What is found in the queue after a match is found or made, put back and taken out.
use ue4team_project_server.Common.{
  Option-cases, subst, ℕ, ◌<◌, ◌≡◌, ◌≢◌, refl, sym, Bool, true, false, ◌==◌, ==_iff, ==_refl,
  if◌then◌else◌, Option, none, some, List, [], ◌∷◌, ◌++◌, All, arith, Bool-cases, inl, inr, ◌⊎◌,
}
use ue4team_project_server.Matching.Match.{Match, new_match}
use ue4team_project_server.Matching.Queue.{Unique, IsSystem, find_map-All}
use ue4team_project_server.Matching.Service.{
  MatchSystem, find_map, find_id, erase_id, replace, create_or_find,
}

first_or_later :
    (b : Bool) (x m : Match) (o : Option Match)
    → (if b then some x else o) ≡ some m
    → ((b ≡ true) × (x ≡ m)) ⊎ ((b ≡ false) × (o ≡ some m))
first_or_later true x m o e = inl (refl, cc)
first_or_later false x m o e = inr (refl, e)

find_map-mapid :
    (mapid : ℕ) (queue : List Match) (m : Match) → find_map mapid queue ≡ some m → m.mapid ≡ mapid
find_map-mapid mapid [] m e = absurd cc
find_map-mapid mapid (x ∷ queue) m e =
    elim (first_or_later (mapid == x.mapid) x m (find_map mapid queue) e) [
      | inl (g, same) ↦ subst (λ y. y.mapid ≡ mapid) same (sym ((==_iff mapid x.mapid).0 g))
      | inr (_, later) ↦ find_map-mapid mapid queue m later
    ]

-- Ids being distinct, the match that is found for a map is the one that is found by its id.
find_map-find_id :
    (mapid : ℕ) (queue : List Match) (m : Match)
    → Unique queue
    → find_map mapid queue ≡ some m
    → find_id m.match_instance_id queue ≡ some m
find_map-find_id mapid [] m h e = absurd cc
find_map-find_id mapid (x ∷ queue) m h e =
    elim (first_or_later (mapid == x.mapid) x m (find_map mapid queue) e) [
      | inl (_, same) ↦
          subst (λ y. find_id y.match_instance_id (x ∷ queue) ≡ some y) same
            (rw (==_refl x.match_instance_id))
      | inr (_, later) ↦
          let apart : m.match_instance_id ≢ x.match_instance_id =
            find_map-All _ mapid queue m h.0 later in
          let other : (m.match_instance_id == x.match_instance_id) ≡ false =
            ground (arith, apart) in
          rw other (find_map-find_id mapid queue m h.1 later)
    ]

find_id_last :
    (m : Match) (queue : List Match)
    → All (λ x. x.match_instance_id < m.match_instance_id) queue
    → find_id m.match_instance_id (queue ++ m ∷ []) ≡ some m
find_id_last m [] h = rw (==_refl m.match_instance_id)
find_id_last m (x ∷ queue) h =
    let other : (m.match_instance_id == x.match_instance_id) ≡ false = ground (arith, h.0) in
    rw other (find_id_last m queue h.1)

-- The match of a request is one of the map, and stands in the queue.
pub create_or_find-found :
    (mapid : ℕ) (s : MatchSystem)
    → IsSystem s
    → let (m, t) = create_or_find mapid s in
      (m.mapid ≡ mapid) × (find_id m.match_instance_id t.match_queue ≡ some m)
unfolding create_or_find new_match
create_or_find-found mapid s h = elim (Option-cases (find_map mapid s.match_queue)) [
  | inl e ↦ rw e (refl, find_id_last (new_match s.match_id mapid) s.match_queue h.below)
  | inr (m, e) ↦
      rw e
        (find_map-mapid mapid s.match_queue m e, find_map-find_id mapid s.match_queue m h.unique e)
]

-- A match that is put back is found by its id, if one with its id was.
pub find_id-replace :
    (m x : Match) (queue : List Match)
    → find_id m.match_instance_id queue ≡ some x
    → find_id m.match_instance_id (replace m queue) ≡ some m
find_id-replace m x [] e = absurd cc
find_id-replace m x (y ∷ queue) e =
    elim (first_or_later (m.match_instance_id == y.match_instance_id) y x
      (find_id m.match_instance_id queue) e) [
        | inl (g, _) ↦ rw g (rw (==_refl m.match_instance_id))
        | inr (g, later) ↦ rw (g, g) (find_id-replace m x queue later)
      ]

find_id-none :
    (id : ℕ) (queue : List Match)
    → All (λ x. x.match_instance_id ≢ id) queue
    → find_id id queue ≡ none
find_id-none id [] h = refl
find_id-none id (x ∷ queue) h =
    let other : (id == x.match_instance_id) ≡ false = ground (arith, h.0) in
    rw other (find_id-none id queue h.1)

-- A match that is taken out is found no more.
pub find_id-erase_id :
    (id : ℕ) (queue : List Match) → Unique queue → find_id id (erase_id id queue) ≡ none
find_id-erase_id id [] h = refl
find_id-erase_id id (x ∷ queue) h = elim (Bool-cases (id == x.match_instance_id)) [
  | inl g ↦ rw g (
      subst (λ n. find_id n queue ≡ none) (sym ((==_iff id x.match_instance_id).0 g))
        (find_id-none x.match_instance_id queue h.0))
  | inr g ↦ rw (g, g) (find_id-erase_id id queue h.1)
]

pub find_id-id :
    (id : ℕ) (queue : List Match) (m : Match) → find_id id queue ≡ some m → m.match_instance_id ≡ id
find_id-id id [] m e = absurd cc
find_id-id id (x ∷ queue) m e =
    elim (first_or_later (id == x.match_instance_id) x m (find_id id queue) e) [
      | inl (g, same) ↦
          subst (λ y. y.match_instance_id ≡ id) same (sym ((==_iff id x.match_instance_id).0 g))
      | inr (_, later) ↦ find_id-id id queue m later
    ]
