-- ===== src/Lobby/Spec/Admission.antt =====
-- Who is in was granted it, and a ticket lets in once: the laws of the machine that the lobby follows.
use ue4team_project_server.Common.{
  ℕ, ◌≡◌, refl, sym, ap, ◌∙◌, subst, ◌⊎◌, inl, inr, List, [], ◌∷◌, Option, none, some, Any, pos,
  Bool-cases, same_text, same_text_iff, text_keys, arith, Option-cases,
}
use ue4team_project_server.Common.Keyed.{set_if_new, set_at, unset, or_else}
use ue4team_project_server.Server.RemoteSessionInfo.{RemoteSessionInfo}
use ue4team_project_server.Lobby.State.{not_confirm, reserve_to_migrate}
use ue4team_project_server.Lobby.Spec.{
  Guest, Hall, Label, stutter, granted, connected, disconnected, admitted, reserved, let_in,
  leaving, apply, Allowed, Run, here, next, nobody, grant_of, grants,
}

-- The account, its number and the address are those of an authority.
abbrev pub GrantOf : Guest → RemoteSessionInfo → Type 0
GrantOf g info = (info.id ≡ g.account) × (info.accid ≡ g.accid) × (info.ip ≡ g.address)

abbrev pub WasGranted : Guest → List RemoteSessionInfo → Type 0
WasGranted g = Any (GrantOf g)

abbrev Waits : List ℕ → RemoteSessionInfo → List RemoteSessionInfo → Type 0
Waits id info infos = (info.id ≡ id) × Any (λ i. i ≡ info) infos

-- In a hall that a run has reached, each ticket was granted, and so was each guest that is in.
pub record IsHall (infos : List RemoteSessionInfo) (h : Hall) : Type 0 where
  pub waiting :
      (id : List ℕ) (info : RemoteSessionInfo) → h.tickets id ≡ some info → Waits id info infos
  pub entered :
      (k : List ℕ) (g : Guest)
      → h.guests k ≡ some g
      → (g.uuid ≡ k) × ((g.state ≡ pos not_confirm) ⊎ WasGranted g infos)

nobody-IsHall : IsHall [] nobody
nobody-IsHall = record { waiting = λ id info e. absurd cc; entered = λ k g e. absurd cc }

-- An entry of a changed function is the new one or an old one.
set_at-cases :
    {V : Type 0} (k : List ℕ) (v : V) (f : List ℕ → Option V) (j : List ℕ) {w : V}
    → set_at k v f j ≡ some w
    → ((k ≡ j) × (v ≡ w)) ⊎ (f j ≡ some w)
set_at-cases k v f j {w} e = elim (Bool-cases (same_text k j)) [
  | inl s ↦ inl ((same_text_iff k j).0 s, (let e' : some v ≡ some w = rw s at e in cc))
  | inr s ↦ inr (rw s at e)
]

unset-old :
    {V : Type 0} (k : List ℕ) (f : List ℕ → Option V) (j : List ℕ) {w : V}
    → unset k f j ≡ some w
    → f j ≡ some w
unset-old k f j {w} e = elim (Bool-cases (same_text k j)) [
  | inl s ↦ (let e' : none ≡ some w = rw s at e in absurd cc)
  | inr s ↦ rw s at e
]

set_if_new-cases :
    {V : Type 0} (k : List ℕ) (v : V) (f : List ℕ → Option V) (j : List ℕ) {w : V}
    → set_if_new k v f j ≡ some w
    → ((k ≡ j) × (v ≡ w)) ⊎ (f j ≡ some w)
set_if_new-cases k v f j {w} e = elim (Bool-cases (same_text k j)) [
  | inl s ↦
      (let same = (same_text_iff k j).0 s in
        let e' : some (or_else (f k) v) ≡ some w = rw s at e in
        elim (Option-cases (f k)) [
          | inl n ↦ inl (same, ground (arith, e', n))
          | inr (u, o) ↦ inr (subst (λ i. f i ≡ some w) same (ground (arith, e', o)))
        ])
  | inr s ↦ inr (rw s at e)
]

abbrev IsEntered : List ℕ → List RemoteSessionInfo → Guest → Type 0
IsEntered k infos g = (g.uuid ≡ k) × ((g.state ≡ pos not_confirm) ⊎ WasGranted g infos)

-- A guest that takes a place under its own key.
seated :
    (k : List ℕ) (g : Guest) (infos : List RemoteSessionInfo) (f : List ℕ → Option Guest)
    (j : List ℕ) (w : Guest)
    → IsEntered k infos g
    → (f j ≡ some w → IsEntered j infos w)
    → ((k ≡ j) × (g ≡ w)) ⊎ (f j ≡ some w)
    → IsEntered j infos w
seated k g infos f j w new old (inl (ek, eg)) =
    subst (λ i. IsEntered i infos w) ek (subst (IsEntered k infos) eg new)
seated k g infos f j w new old (inr e) = old e

step-IsHall :
    (l : Label) (infos : List RemoteSessionInfo) (h : Hall)
    → Allowed l h
    → IsHall infos h
    → IsHall (grant_of l infos) (apply l h)
unfolding grant_of
step-IsHall stutter infos h a i = i
step-IsHall (granted info) infos h a i = record {
  waiting = λ id w e. elim (set_if_new-cases info.id info h.tickets id e) [
    | inl (same, e') ↦ (sym (ap (λ r. r.id) e') ∙ same, inl e')
    | inr old ↦ let (same, known) = i.waiting id w old in (same, inr known)
  ];
  entered = λ k g e.
      let (same, had) = i.entered k g e in
      (same, elim had [ inl new ↦ inl new | inr known ↦ inr (inr known) ]);
}
step-IsHall (connected uuid g) infos h (same, new) i = record {
  waiting = i.waiting;
  entered = λ k w e.
      seated uuid g infos h.guests k w (same, inl new) (i.entered k w)
        (set_if_new-cases uuid g h.guests k e);
}
step-IsHall (disconnected uuid) infos h a i = record {
  waiting = i.waiting;
  entered = λ k g e. i.entered k g (unset-old uuid h.guests k e);
}
step-IsHall (admitted g id info) infos h (at, ticket, address) i = record {
  waiting = λ j w e. i.waiting j w (unset-old id h.tickets j e);
  entered = λ k w e.
      seated g.uuid (let_in g id info) infos h.guests k w
        (refl, inr (has infos (i.waiting id info ticket))) (i.entered k w)
        (set_at-cases g.uuid (let_in g id info) h.guests k e);
}
  where
    has : (is : List RemoteSessionInfo) → Waits id info is → WasGranted (let_in g id info) is
    has is (same, known) = found is known
      where
        found :
            (js : List RemoteSessionInfo)
            → Any (λ j. j ≡ info) js
            → WasGranted (let_in g id info) js
        found [] k = k
        found (j ∷ js) (inl e) =
            inl (ap (λ r. r.id) e ∙ same, ap (λ r. r.accid) e, ap (λ r. r.ip) e ∙ address)
        found (j ∷ js) (inr k) = inr (found js k)
step-IsHall (reserved g) infos h (at, state) i = record {
  waiting = i.waiting;
  entered = λ k w e.
      seated g.uuid (leaving g) infos h.guests k w (refl, left (i.entered g.uuid g at).1)
        (i.entered k w) (set_at-cases g.uuid (leaving g) h.guests k e);
}
  where
    left :
        (g.state ≡ pos not_confirm) ⊎ WasGranted g infos
        → (pos reserve_to_migrate ≡ pos not_confirm) ⊎ WasGranted (leaving g) infos
    left (inl new) = absurd cc
    left (inr known) = inr known

pub Run-IsHall : {ls : List Label} {h : Hall} → Run nobody ls h → IsHall (grants ls) h
unfolding grants
Run-IsHall here = nobody-IsHall
Run-IsHall (next r l a) = step-IsHall l _ _ a (Run-IsHall r)
