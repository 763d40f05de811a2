-- ===== src/Zone/Control.antt =====
-- Which member runs the monsters of a dungeon, whatever characters come and go.
use ue4team_project_server.Common.{
  ap, ==_iff, ==_refl, ℕ, ◌+◌, ◌^◌, ◌<◌, ◌≡◌, ◌≢◌, refl, sym, Bool, true, false, ◌==◌,
  if◌then◌else◌, List, [], ◌∷◌, ◌++◌, All, arith, ◌⊎◌, inl, inr, Bool-cases,
}
use ue4team_project_server.Zone.Members.{
  is_dungeon, get_character, set_monster_controller, client_of, to_client, dungeon, Member, Sent,
  Zone, mob_controller_null_value, is_member, erase, eligible, hand_over, remove_character,
}

abbrev pub Entry : ℕ → ℕ × Member → Type 0
Entry bound e = (e.1.object_id ≡ e.0) × (e.0 < bound)

-- A member runs the monsters, or nobody does and no member could.
abbrev pub Controlled : ℕ → ℕ → List (ℕ × Member) → Type 0
Controlled instance_id controller chrs =
    (is_member controller chrs ≡ true)
    ⊎ ((controller ≡ mob_controller_null_value) × All (λ e. eligible instance_id e.1 ≡ false) chrs)

-- The map's keys are the ids of the characters and have been given out, and the dungeon is controlled.
pub record IsDungeon (z : Zone) : Type 0 where
  pub type : z.zone_type ≡ dungeon
  pub entries : All (Entry z.last_object_id) z.chrs
  pub ids_left : z.last_object_id < 2 ^ 63
  pub controlled : Controlled z.instance_id z.monster_controller_id z.chrs

module _ {ℓ} (P : ℕ × Member → Type ℓ) where
  erase-All : (oid : ℕ) (chrs : List (ℕ × Member)) → All P chrs → All P (erase oid chrs)
  erase-All oid [] h = tt
  erase-All oid ((k, c) ∷ chrs) h = elim (Bool-cases (k == oid)) [
    | inl e ↦ rw e h.1
    | inr e ↦ rw e (h.0, erase-All oid chrs h.1)
  ]

  pub append-All :
      (chrs : List (ℕ × Member)) (x : ℕ × Member) → All P chrs → P x → All P (chrs ++ x ∷ [])
  append-All [] x h p = (p, tt)
  append-All (y ∷ chrs) x h p = (h.0, append-All chrs x h.1 p)

pub Entry-grows : (b : ℕ) (chrs : List (ℕ × Member)) → All (Entry b) chrs → All (Entry (b + 1)) chrs
Entry-grows b [] h = tt
Entry-grows b (x ∷ chrs) ((e, l), h) = ((e, omega arith), Entry-grows b chrs h)

pub unknown :
    (oid : ℕ) (chrs : List (ℕ × Member)) → All (Entry oid) chrs → is_member oid chrs ≡ false
unknown oid [] h = refl
unknown oid ((k, c) ∷ chrs) ((e, l), h) = rw (lt→differs k oid l) (unknown oid chrs h)
  where
    lt→differs : (k oid : ℕ) → k < oid → (k == oid) ≡ false
    lt→differs k oid l = ground arith

pub is_member-append :
    (oid : ℕ) (chrs : List (ℕ × Member)) (c : Member) → is_member oid (chrs ++ (oid, c) ∷ []) ≡ true
is_member-append oid [] c = rw (==_refl oid)
is_member-append oid ((k, d) ∷ chrs) c = elim (Bool-cases (k == oid)) [
  | inl e ↦ rw e
  | inr e ↦ rw e (is_member-append oid chrs c)
]

if_true : (b r : Bool) → (if b then true else r) ≡ true → (b ≡ true) ⊎ (r ≡ true)
if_true true r h = inl refl
if_true false r h = inr h

module _ (oid k : ℕ) (c : Member) (chrs : List (ℕ × Member)) where
  member_here : (k == oid) ≡ true → is_member oid ((k, c) ∷ chrs) ≡ true
  member_here e = rw e

  member_later : is_member oid chrs ≡ true → is_member oid ((k, c) ∷ chrs) ≡ true
  member_later h = elim (Bool-cases (k == oid)) [ inl e ↦ rw e | inr e ↦ rw e h ]

pub is_member-kept :
    (oid : ℕ) (chrs : List (ℕ × Member)) (x : ℕ × Member)
    → is_member oid chrs ≡ true
    → is_member oid (chrs ++ x ∷ []) ≡ true
is_member-kept oid [] x h = cc
is_member-kept oid ((k, d) ∷ chrs) x h = elim (if_true (k == oid) (is_member oid chrs) h) [
  | inl e ↦ member_here oid k d _ e
  | inr e ↦ member_later oid k d _ (is_member-kept oid chrs x e)
]

both_eq : (k oid other : ℕ) → (k == oid) ≡ true → (k == other) ≡ true → other ≡ oid
both_eq k oid other e f = ground arith

is_member-erase :
    (oid other : ℕ) (chrs : List (ℕ × Member))
    → other ≢ oid
    → is_member other chrs ≡ true
    → is_member other (erase oid chrs) ≡ true
is_member-erase oid other [] ne h = h
is_member-erase oid other ((k, c) ∷ chrs) ne h = elim (Bool-cases (k == oid)) [
  | inl e ↦ rw e (elim (if_true (k == other) (is_member other chrs) h) [
    | inl f ↦ absurd (ne (both_eq k oid other e f))
    | inr f ↦ f
  ])
  | inr e ↦ rw e (elim (if_true (k == other) (is_member other chrs) h) [
    | inl f ↦ member_here other k c _ f
    | inr f ↦ member_later other k c _ (is_member-erase oid other chrs ne f)
  ])
]

pub is_null : (n : ℕ) → n ≡ mob_controller_null_value → (n == mob_controller_null_value) ≡ true
is_null n e = (==_iff n mob_controller_null_value).1 e

-- What the loop of a removal comes to.
abbrev HandedOver : List (ℕ × Member) → Zone → Type 0
HandedOver chrs z =
    (controller : ℕ) × (sent : List Sent) × (hand_over chrs z
      ≡ record z { monster_controller_id = controller; sent = sent })
    × Controlled z.instance_id controller chrs

hand_over-HandedOver :
    (bound : ℕ) (chrs : List (ℕ × Member)) (z : Zone)
    → z.monster_controller_id ≡ mob_controller_null_value
    → All (Entry bound) chrs
    → HandedOver chrs z
hand_over-HandedOver bound [] z n h = (z.monster_controller_id, z.sent, refl, inr (n, tt))
hand_over-HandedOver bound ((k, c) ∷ chrs) z n ((o, l), h) =
    elim (Bool-cases (eligible z.instance_id c)) [
      | inl e ↦ (
        c.object_id,
        z.sent ++ to_client c.client (set_monster_controller true),
        rw (e, is_null z.monster_controller_id n),
        inl (member_here c.object_id k c chrs ((==_iff k c.object_id).1 (sym o))),
      )
      | inr e ↦
          let (controller, sent, q, m) = hand_over-HandedOver bound chrs z n h in
          (
            controller,
            sent,
            rw e q,
            elim m [
              | inl r ↦ inl (member_later controller k c chrs r)
              | inr (r, a) ↦ inr (r, (e, a))
            ],
          )
    ]

erase-Controlled :
    (id controller oid : ℕ) (chrs : List (ℕ × Member))
    → (controller == oid) ≡ false
    → Controlled id controller chrs
    → Controlled id controller (erase oid chrs)
erase-Controlled id controller oid chrs ne (inl m) =
    inl (is_member-erase oid controller chrs (λ e. differs ((==_iff controller oid).1 e) ne) m)
  where
    differs : {b : Bool} → b ≡ true → b ≡ false → ⊥
    differs p q = cc
erase-Controlled id controller oid chrs ne (inr (n, a)) = inr (n, erase-All _ oid chrs a)

-- Removing any id from a well-formed dungeon leaves a well-formed one: its keys are ids that were
-- given out, and a member runs the monsters, or nobody does and no member could.
pub remove_character-IsDungeon :
    (object_id : ℕ) (z : Zone) → IsDungeon z → IsDungeon (remove_character object_id z).1
unfolding remove_character
remove_character-IsDungeon oid z h = elim (Bool-cases (z.monster_controller_id == oid)) [
  | inl e ↦
      let (controller, sent, q, m) =
        hand_over-HandedOver z.last_object_id (erase oid z.chrs)
          (record z {
            monster_controller_id = mob_controller_null_value;
            chrs = erase oid z.chrs;
            sent =
                z.sent
                ++ to_client (client_of (get_character oid z.chrs)) (set_monster_controller false);
          })
          refl (erase-All _ oid z.chrs h.entries) in
      rw (ap is_dungeon h.type, e, q)
        (record {
          type = h.type;
          entries = erase-All _ oid z.chrs h.entries;
          ids_left = h.ids_left;
          controlled = m;
        })
  | inr e ↦
      rw (ap is_dungeon h.type, e)
        (record {
          type = h.type;
          entries = erase-All _ oid z.chrs h.entries;
          ids_left = h.ids_left;
          controlled =
              erase-Controlled z.instance_id z.monster_controller_id oid z.chrs e h.controlled;
        })
]
