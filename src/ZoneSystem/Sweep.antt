-- ===== src/ZoneSystem/Sweep.antt =====
-- What a pass of the update thread leaves of the zones.
use ue4team_project_server.Common.{
  ℕ, ◌%◌, ◌^◌, ◌<◌, ◌≡◌, ◌≢◌, refl, sym, ap, subst, ◌∙◌, ◌⊎◌, Bool-cases, inl, inr, ◌==◌, ==_iff,
  if◌then◌else◌, List, [], ◌∷◌, ◌++◌, Option, none, some, All, arith,
}
use ue4team_project_server.Zone.Members.{ZoneType, town, dungeon, kinds, Member}
use ue4team_project_server.ZoneSystem.Tables.{
  SpawnPoint, ZoneData, Tables, Monster, get_data, get_monster,
}
use ue4team_project_server.ZoneSystem.Instances.{
  Instance, System, new_instance, is_monster, spawned, populate, create_new_instance, find_instance,
  get_instance, is_left, erase_left, sweep,
}

abbrev pub id_of : Instance → ℕ
id_of i = i.zone.instance_id

-- Every zone has an id of its own, below the next.
abbrev pub Distinct : List Instance → Type 0
Distinct [] = Unit
Distinct (i ∷ maps) = All (λ j. id_of j ≢ id_of i) maps × Distinct maps

pub record IsSystem (s : System) : Type 0 where
  pub distinct : Distinct s.maps
  pub below : All (λ i. id_of i < s.new_instance_id) s.maps

abbrev kept : Option Instance → Option Instance
kept none = none
kept (some i) = if is_left i then none else some i

absent :
    (id : ℕ) (maps : List Instance) → All (λ j. id_of j ≢ id) maps → find_instance id maps ≡ none
unfolding find_instance
absent id [] h = refl
absent id (i ∷ maps) (hi, h) = elim (Bool-cases (id_of i == id)) [
  | inl same ↦ absurd (hi ((==_iff (id_of i) id).0 same))
  | inr other ↦ rw other (absent id maps h)
]

find-erase_left :
    (id : ℕ) (maps : List Instance)
    → Distinct maps
    → find_instance id (erase_left maps) ≡ kept (find_instance id maps)
unfolding find_instance erase_left
find-erase_left id [] h = refl
find-erase_left id (i ∷ maps) (hi, h) = elim (Bool-cases (id_of i == id)) [
  | inl same ↦ elim (Bool-cases (is_left i)) [
    | inl left ↦
        let gone : find_instance id maps ≡ none =
          ap (λ k. find_instance k maps) (sym ((==_iff (id_of i) id).0 same))
          ∙ absent (id_of i) maps hi in
        rw (same, left) (find-erase_left id maps h ∙ ap kept gone)
    | inr stays ↦ rw (stays, same, stays)
  ]
  | inr other ↦ elim (Bool-cases (is_left i)) [
    | inl left ↦ rw (left, other) (find-erase_left id maps h)
    | inr stays ↦ rw (stays, other) (find-erase_left id maps h)
  ]
]

erase_left-All {ℓ} :
    (P : Instance → Type ℓ) (maps : List Instance) → All P maps → All P (erase_left maps)
unfolding erase_left
erase_left-All P [] h = tt
erase_left-All P (i ∷ maps) (hi, h) = elim (Bool-cases (is_left i)) [
  | inl left ↦ rw left (erase_left-All P maps h)
  | inr stays ↦ rw stays (hi, erase_left-All P maps h)
]

erase_left-Distinct : (maps : List Instance) → Distinct maps → Distinct (erase_left maps)
unfolding erase_left
erase_left-Distinct [] h = tt
erase_left-Distinct (i ∷ maps) (hi, h) = elim (Bool-cases (is_left i)) [
  | inl left ↦ rw left (erase_left-Distinct maps h)
  | inr stays ↦ rw stays (erase_left-All _ maps hi, erase_left-Distinct maps h)
]

-- What is found under an id after a pass, if what the first option has was found before.
abbrev pub Swept : Option Instance → Option Instance → Type 0
Swept none after = after ≡ none
Swept (some i) after =
    ((i.zone.zone_type ≡ dungeon) × (i.zone.chrs ≡ []) × (after ≡ none))
    ⊎ (((i.zone.zone_type ≢ dungeon) ⊎ (i.zone.chrs ≢ [])) × (after ≡ some i))

kept-Swept : (i : Instance) → Swept (some i) (kept (some i))
kept-Swept i = by_type i.zone.zone_type i.zone.chrs refl refl
  where
    by_type :
        (t : ZoneType) (chrs : List (ℕ × Member))
        → i.zone.zone_type ≡ t
        → i.zone.chrs ≡ chrs
        → Swept (some i) (kept (some i))
    by_type town chrs e f = inr (inl (λ d. absurd (town-dungeon (sym e ∙ d))), rw e)
      where
        town-dungeon : town ≡ dungeon → ⊥
        town-dungeon d = cc
    by_type kinds chrs e f = inr (inl (λ d. absurd (kinds-dungeon (sym e ∙ d))), rw e)
      where
        kinds-dungeon : kinds ≡ dungeon → ⊥
        kinds-dungeon d = cc
    by_type dungeon [] e f = inl (e, f, rw (e, f))
    by_type dungeon (c ∷ chrs) e f = inr (inr (λ d. absurd (taken (sym f ∙ d))), rw (e, f))
      where
        taken : (c ∷ chrs) ≡ [] → ⊥
        taken d = cc

-- Ids being distinct and below the next, they are so after a pass; a zone that was found by its id is found no
-- more if it is a dungeon and nobody is in it, and is found unchanged if it is no dungeon or somebody is in it;
-- and no zone is found under an id under which there was none.
pub sweep-Swept :
    (s : System) (id : ℕ)
    → IsSystem s
    → IsSystem (sweep s) × Swept (get_instance id s) (get_instance id (sweep s))
sweep-Swept s id h = (
  record {
    distinct = erase_left-Distinct s.maps h.distinct;
    below = erase_left-All _ s.maps h.below;
  },
  subst (Swept (get_instance id s)) (sym (find-erase_left id s.maps h.distinct))
      (found (get_instance id s)),
)
  where
    found : (o : Option Instance) → Swept o (kept o)
    found none = refl
    found (some i) = kept-Swept i

-- What the monsters of a new zone leave as it is.
record Like (i j : Instance) : Type 0 where
  id : id_of j ≡ id_of i
  left : is_left j ≡ is_left i

populate-Like :
    (tables : Tables) (points : List SpawnPoint) (i : Instance) → Like i (populate tables points i)
unfolding populate
populate-Like tables [] i = record { id = refl; left = refl }
populate-Like tables (p ∷ points) i =
    let rest =
      populate-Like tables points
        (if is_monster p then spawned p (get_monster tables (p.id % 2 ^ 32)) i else i) in
    record { id = rest.id ∙ first.id; left = rest.left ∙ first.left }
  where
    one : (mob : Option Monster) → Like i (spawned p mob i)
    one none = record { id = refl; left = refl }
    one (some mob) = record { id = refl; left = refl }

    first : Like i (if is_monster p then spawned p (get_monster tables (p.id % 2 ^ 32)) i else i)
    first = elim (Bool-cases (is_monster p)) [
      | inl monster ↦ rw monster (one (get_monster tables (p.id % 2 ^ 32)))
      | inr other ↦ rw other (record { id = refl; left = refl })
    ]

find_last :
    (n : ℕ) (i : Instance) (maps : List Instance)
    → id_of i ≡ n
    → All (λ j. id_of j < n) maps
    → find_instance n (maps ++ i ∷ []) ≡ some i
unfolding find_instance
find_last n i [] e h = rw ((==_iff (id_of i) n).1 e)
find_last n i (j ∷ maps) e (hj, h) = elim (Bool-cases (id_of j == n)) [
  | inl same ↦ absurd (ground (arith, hj, same))
  | inr other ↦ rw other (find_last n i maps e h)
]

Distinct-append :
    (n : ℕ) (i : Instance) (maps : List Instance)
    → id_of i ≡ n
    → All (λ j. id_of j < n) maps
    → Distinct maps
    → Distinct (maps ++ i ∷ [])
Distinct-append n i [] e below h = (tt, tt)
Distinct-append n i (j ∷ maps) e (bj, below) (hj, h) =
    (others maps hj, Distinct-append n i maps e below h)
  where
    others :
        (ms : List Instance)
        → All (λ k. id_of k ≢ id_of j) ms
        → All (λ k. id_of k ≢ id_of j) (ms ++ i ∷ [])
    others [] a = ((λ same. absurd (omega (arith, same, e, bj))), tt)
    others (k ∷ ms) (ak, a) = (ak, others ms a)

abbrev made_in : Tables → ZoneData → System → Instance
made_in tables entry s = populate tables entry.spawn_point (new_instance s.new_instance_id entry)

-- A dungeon is made, and the update thread passes before the first character comes into it: then the zone is
-- no longer found by its id, although the call that made it returned it.
pub new_dungeon_is_swept :
    (tables : Tables) (mapid : ℕ) (entry : ZoneData) (s : System)
    → IsSystem s
    → get_data tables mapid ≡ some entry
    → entry.zone_type ≡ 1
    → let (made, t) = create_new_instance tables mapid s in
      (made ≡ some s.new_instance_id)
      × ((i : Instance) × (get_instance s.new_instance_id t ≡ some i))
      × (get_instance s.new_instance_id (sweep t) ≡ none)
unfolding create_new_instance
new_dungeon_is_swept tables mapid entry s h found is_dungeon_type = rw found (
  refl,
  (made_in tables entry s, there),
  find-erase_left s.new_instance_id (s.maps ++ made_in tables entry s ∷ []) (
        Distinct-append s.new_instance_id (made_in tables entry s) s.maps like.id h.below
          h.distinct)
      ∙ ap kept there
      ∙ rw (like.left, is_dungeon_type),
)
  where
    like : Like (new_instance s.new_instance_id entry) (made_in tables entry s)
    like = populate-Like tables entry.spawn_point (new_instance s.new_instance_id entry)

    there :
        find_instance s.new_instance_id (s.maps ++ made_in tables entry s ∷ [])
        ≡ some (made_in tables entry s)
    there = find_last s.new_instance_id (made_in tables entry s) s.maps like.id h.below
