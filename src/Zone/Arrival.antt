-- ===== src/Zone/Arrival.antt =====
-- Characters that come into a dungeon, and members that are about to change zones.
use ue4team_project_server.Common.{
  Option-cases, ℕ, ◌+◌, ◌%◌, ◌^◌, ◌≡◌, ◌≢◌, refl, ◌∙◌, false, ◌==◌, none, List, [], ◌∷◌, All, ◌⊎◌,
  inl, inr, Bool-cases,
}
use ue4team_project_server.Zone.Members.{
  Member, Sent, Zone, mob_controller_null_value, is_member, emplace, eligible, entered, detach,
  leave_zone,
}
use ue4team_project_server.Zone.Control.{Entry, IsDungeon}

-- The zone in which the arrival stands, before control is taken.
abbrev arrived : Member → Zone → List Sent → Zone
arrived c z sent = record z {
  last_object_id = (z.last_object_id + 1) % 2 ^ 64;
  chrs = emplace z.last_object_id (entered c z) z.chrs;
  sent = sent;
}

-- The controller is the arrival if nobody ran the monsters, and otherwise stays.
abbrev pub Takes : ℕ → ℕ → ℕ → Type 0
Takes oid before after =
    ((before ≡ mob_controller_null_value) × (after ≡ oid))
    ⊎ ((before ≢ mob_controller_null_value) × (after ≡ before))

detach-Entry :
    (oid b : ℕ) (chrs : List (ℕ × Member)) → All (Entry b) chrs → All (Entry b) (detach oid chrs)
detach-Entry oid b [] h = tt
detach-Entry oid b ((k, c) ∷ chrs) h = elim (Bool-cases (k == oid)) [
  | inl e ↦ rw e h
  | inr e ↦ rw e (h.0, detach-Entry oid b chrs h.1)
]

detach-is_member :
    (oid n : ℕ) (chrs : List (ℕ × Member)) → is_member n (detach oid chrs) ≡ is_member n chrs
detach-is_member oid n [] = refl
detach-is_member oid n ((k, c) ∷ chrs) = elim (Bool-cases (k == oid)) [
  | inl e ↦ rw e
  | inr e ↦ rw (e, detach-is_member oid n chrs)
]

not_eligible : (id : ℕ) (c : Member) → eligible id (record c { zone = none }) ≡ false
not_eligible id c = elim (Option-cases c.client) [ inl e ↦ rw e | inr (k, e) ↦ rw e ]

detach-eligible :
    (id oid : ℕ) (chrs : List (ℕ × Member))
    → All (λ e. eligible id e.1 ≡ false) chrs
    → All (λ e. eligible id e.1 ≡ false) (detach oid chrs)
detach-eligible id oid [] h = tt
detach-eligible id oid ((k, c) ∷ chrs) h = elim (Bool-cases (k == oid)) [
  | inl e ↦ rw e (not_eligible id c, h.1)
  | inr e ↦ rw e (h.0, detach-eligible id oid chrs h.1)
]

-- Taking the zone from the member with any id leaves a well-formed dungeon well formed.
pub leave_zone-IsDungeon : (oid : ℕ) (z : Zone) → IsDungeon z → IsDungeon (leave_zone oid z)
unfolding leave_zone
leave_zone-IsDungeon oid z h = record {
  type = h.type;
  entries = detach-Entry oid z.last_object_id z.chrs h.entries;
  ids_left = h.ids_left;
  controlled = elim h.controlled [
    | inl m ↦ inl (detach-is_member oid z.monster_controller_id z.chrs ∙ m)
    | inr (n, a) ↦ inr (n, detach-eligible z.instance_id oid z.chrs a)
  ];
}
