-- ===== src/Matching/Queue.antt =====
-- The queue of matches stays well formed whatever the clients ask for.
use ue4team_project_server.Common.{
  Option-cases, subst, ℕ, ◌+◌, ◌^◌, ◌<◌, ◌≡◌, ◌≢◌, refl, sym, ◌∙◌, Bool, true, false, ◌==◌,
  if◌then◌else◌, Option, some, List, [], ◌∷◌, ◌++◌, All, arith, Bool-cases, inl, inr, ◌⊎◌,
}
use ue4team_project_server.Matching.Match.{Match, new_match}
use ue4team_project_server.Matching.Seats.{IsMatch}
use ue4team_project_server.Matching.Service.{
  MatchSystem, find_map, find_id, erase_id, replace, create_or_find, remove_match,
}

-- Ids differ.
abbrev pub Unique : List Match → Type 0
Unique [] = Unit
Unique (m ∷ queue) = All (λ x. x.match_instance_id ≢ m.match_instance_id) queue × Unique queue

pub record IsSystem (s : MatchSystem) : Type 0 where
  pub matches : All IsMatch s.match_queue
  pub below : All (λ m. m.match_instance_id < s.match_id) s.match_queue
  pub unique : Unique s.match_queue

==→eq : (a b : ℕ) → (a == b) ≡ true → a ≡ b
==→eq a b e = ground arith

if_found :
    (b : Bool) (x m : Match) (o : Option Match)
    → (if b then some x else o) ≡ some m
    → (x ≡ m) ⊎ (o ≡ some m)
if_found true x m o e = inl cc
if_found false x m o e = inr e

module _ {ℓ} (P : Match → Type ℓ) where
  pub find_id-All :
      (id : ℕ) (queue : List Match) (m : Match) → All P queue → find_id id queue ≡ some m → P m
  find_id-All id [] m h e = absurd cc
  find_id-All id (x ∷ queue) m h e =
      elim (if_found (id == x.match_instance_id) x m (find_id id queue) e) [
        | inl g ↦ subst P g h.0
        | inr g ↦ find_id-All id queue m h.1 g
      ]

  pub find_map-All :
      (mapid : ℕ) (queue : List Match) (m : Match)
      → All P queue
      → find_map mapid queue ≡ some m
      → P m
  find_map-All mapid [] m h e = absurd cc
  find_map-All mapid (x ∷ queue) m h e =
      elim (if_found (mapid == x.mapid) x m (find_map mapid queue) e) [
        | inl g ↦ subst P g h.0
        | inr g ↦ find_map-All mapid queue m h.1 g
      ]

  erase-All : (id : ℕ) (queue : List Match) → All P queue → All P (erase_id id queue)
  erase-All id [] h = tt
  erase-All id (x ∷ queue) h = elim (Bool-cases (id == x.match_instance_id)) [
    | inl g ↦ rw g h.1
    | inr g ↦ rw g (h.0, erase-All id queue h.1)
  ]

  replace-All : (m : Match) (queue : List Match) → P m → All P queue → All P (replace m queue)
  replace-All m [] p h = tt
  replace-All m (x ∷ queue) p h = elim (Bool-cases (m.match_instance_id == x.match_instance_id)) [
    | inl g ↦ rw g (p, h.1)
    | inr g ↦ rw g (h.0, replace-All m queue p h.1)
  ]

  append-All : (m : Match) (queue : List Match) → P m → All P queue → All P (queue ++ m ∷ [])
  append-All m [] p h = (p, tt)
  append-All m (x ∷ queue) p h = (h.0, append-All m queue p h.1)

erase-Unique : (id : ℕ) (queue : List Match) → Unique queue → Unique (erase_id id queue)
erase-Unique id [] h = tt
erase-Unique id (x ∷ queue) h = elim (Bool-cases (id == x.match_instance_id)) [
  | inl g ↦ rw g h.1
  | inr g ↦ rw g (erase-All _ id queue h.0, erase-Unique id queue h.1)
]

replace-differs :
    (id : ℕ) (m : Match) (queue : List Match)
    → All (λ x. x.match_instance_id ≢ id) queue
    → All (λ x. x.match_instance_id ≢ id) (replace m queue)
replace-differs id m [] h = tt
replace-differs id m (x ∷ queue) h =
    elim (Bool-cases (m.match_instance_id == x.match_instance_id)) [
      | inl g ↦ rw g ((λ e. h.0 (sym (==→eq m.match_instance_id x.match_instance_id g) ∙ e)), h.1)
      | inr g ↦ rw g (h.0, replace-differs id m queue h.1)
    ]

replace-Unique : (m : Match) (queue : List Match) → Unique queue → Unique (replace m queue)
replace-Unique m [] h = tt
replace-Unique m (x ∷ queue) h = elim (Bool-cases (m.match_instance_id == x.match_instance_id)) [
  | inl g ↦ rw g (
    subst (λ k. All (λ y. y.match_instance_id ≢ k) queue)
        (sym (==→eq m.match_instance_id x.match_instance_id g)) h.0,
    h.1,
  )
  | inr g ↦ rw g (replace-differs x.match_instance_id m queue h.0, replace-Unique m queue h.1)
]

append-Unique :
    (m : Match) (queue : List Match)
    → All (λ x. x.match_instance_id < m.match_instance_id) queue
    → Unique queue
    → Unique (queue ++ m ∷ [])
append-Unique m [] b h = (tt, tt)
append-Unique m (x ∷ queue) b h =
    (append-All _ m queue (omega arith) h.0, append-Unique m queue b.1 h.1)

pub put-IsSystem :
    (m : Match) (s : MatchSystem)
    → IsMatch m
    → m.match_instance_id < s.match_id
    → IsSystem s
    → IsSystem (record s { match_queue = replace m s.match_queue })
put-IsSystem m s i b h = record {
  matches = replace-All _ m s.match_queue i h.matches;
  below = replace-All _ m s.match_queue b h.below;
  unique = replace-Unique m s.match_queue h.unique;
}

pub remove_match-IsSystem : (id : ℕ) (s : MatchSystem) → IsSystem s → IsSystem (remove_match id s)
unfolding remove_match
remove_match-IsSystem id s h = record {
  matches = erase-All _ id s.match_queue h.matches;
  below = erase-All _ id s.match_queue h.below;
  unique = erase-Unique id s.match_queue h.unique;
}

new_match-IsMatch : (id mapid : ℕ) → IsMatch (new_match id mapid)
unfolding new_match
new_match-IsMatch id mapid = record {
  two_seats = refl;
  sound = (refl, (refl, tt));
  standing = refl;
}

pub All-map {ℓ κ μ} :
    {A : Type ℓ} (P : A → Type κ) (Q : A → Type μ) (xs : List A)
    → ((x : A) → P x → Q x)
    → All P xs
    → All Q xs
All-map P Q [] f h = tt
All-map P Q (x ∷ xs) f h = (f x h.0, All-map P Q xs f h.1)

-- The match that is found or made is well formed, with an id below the counter's.
pub create_or_find-IsSystem :
    (mapid : ℕ) (s : MatchSystem)
    → s.match_id + 1 < 2 ^ 64
    → IsSystem s
    → IsMatch (create_or_find mapid s).0
      × ((create_or_find mapid s).0.match_instance_id < (create_or_find mapid s).1.match_id)
      × IsSystem (create_or_find mapid s).1
unfolding create_or_find new_match
create_or_find-IsSystem mapid s small h = elim (Option-cases (find_map mapid s.match_queue)) [
  | inl e ↦ rw e (
    new_match-IsMatch s.match_id mapid,
    omega arith,
    record {
      matches =
          append-All _ (new_match s.match_id mapid) s.match_queue
            (new_match-IsMatch s.match_id mapid) h.matches;
      below =
          append-All _ (new_match s.match_id mapid) s.match_queue (omega arith)
            (All-map _ _ s.match_queue (λ m b. omega arith) h.below);
      unique = append-Unique (new_match s.match_id mapid) s.match_queue h.below h.unique;
    },
  )
  | inr (m, e) ↦ rw e (
    find_map-All _ mapid s.match_queue m h.matches e,
    find_map-All _ mapid s.match_queue m h.below e,
    h,
  )
]
