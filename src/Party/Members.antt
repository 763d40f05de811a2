-- ===== src/Party/Members.antt =====
-- Who is in a party, over calls of the party system.
use ue4team_project_server.Common.{
  ℕ, ◌≡◌, ◌≢◌, refl, sym, ap, ◌∙◌, Bool, true, false, ◌==◌, if◌then◌else◌, Option, none, some, List,
  [], ◌∷◌, ◌++◌, Bool-cases, inl, inr, ◌⊎◌, ==_iff, ==_refl, arith,
}
use ue4team_project_server.Party.System.{
  Party, PartySystem, update, find_party, create_party, disband_party, put_users, join_users,
  join_found, join_party, is_user, erase_user, leave_found, leave_party,
}

if_party :
    (b : Bool) (x p : Party) (o : Option Party)
    → (if b then some x else o) ≡ some p
    → ((b ≡ true) × (x ≡ p)) ⊎ ((b ≡ false) × (o ≡ some p))
if_party true x p o e = inl (refl, cc)
if_party false x p o e = inr (refl, e)

-- A party that is found is the one with the id, and putting it back changes nothing.
find_party-update :
    (id : ℕ) (parties : List Party) (p : Party)
    → find_party id parties ≡ some p
    → (p.party_id ≡ id) × (update p parties ≡ parties)
find_party-update id [] p e = absurd cc
find_party-update id (x ∷ parties) p e =
    elim (if_party (x.party_id == id) x p (find_party id parties) e) [
      | inl (b, q) ↦ (
        ap Party.party_id (sym q) ∙ (==_iff x.party_id id).0 b,
        rw ((==_iff x.party_id p.party_id).1 (ap Party.party_id q)) (ap (λ y. y ∷ parties) (sym q)),
      )
      | inr (b, q) ↦
          let (i, u) = find_party-update id parties p q in
          (i, rw (ap (λ k. x.party_id == k) i ∙ b) (ap (λ ys. x ∷ ys) u))
    ]

-- What is put for a party is found under its id.
find_party_updated :
    (id : ℕ) (parties : List Party) (p q : Party)
    → find_party id parties ≡ some p
    → q.party_id ≡ id
    → find_party id (update q parties) ≡ some q
find_party_updated id [] p q e i = absurd cc
find_party_updated id (x ∷ parties) p q e i =
    elim (if_party (x.party_id == id) x p (find_party id parties) e) [
      | inl (b, _) ↦ rw (ap (λ k. x.party_id == k) i ∙ b, (==_iff q.party_id id).1 i)
      | inr (b, r) ↦ rw (ap (λ k. x.party_id == k) i ∙ b, b) (find_party_updated id parties p q r i)
    ]

update-update :
    (p q : Party) (parties : List Party)
    → p.party_id ≡ q.party_id
    → update q (update p parties) ≡ update q parties
update-update p q [] e = refl
update-update p q (x ∷ parties) e = elim (Bool-cases (x.party_id == p.party_id)) [
  | inl b ↦ rw (b, (==_iff p.party_id q.party_id).1 e, sym (ap (λ k. x.party_id == k) e) ∙ b)
  | inr b ↦
      rw (b, sym (ap (λ k. x.party_id == k) e) ∙ b)
        (ap (λ ys. x ∷ ys) (update-update p q parties e))
]

is_user-append : (c : ℕ) (users : List ℕ) → is_user c (users ++ c ∷ []) ≡ true
is_user-append c [] = rw (==_refl c)
is_user-append c (u ∷ users) = elim (Bool-cases (u == c)) [
  | inl e ↦ rw e
  | inr e ↦ rw e (is_user-append c users)
]

if_absent : (b r : Bool) → (if b then true else r) ≡ false → (b ≡ false) × (r ≡ false)
if_absent true r e = absurd cc
if_absent false r e = (refl, e)

erase_user-append :
    (c : ℕ) (users : List ℕ) → is_user c users ≡ false → erase_user c (users ++ c ∷ []) ≡ users
erase_user-append c [] h = rw (==_refl c)
erase_user-append c (u ∷ users) h =
    let (b, r) = if_absent (u == c) (is_user c users) h in
    rw b (ap (λ us. u ∷ us) (erase_user-append c users r))

leave_last :
    (p : Party) (users : List ℕ) (client : ℕ) (s : PartySystem)
    → is_user client users ≡ false
    → leave_found (some (record p { party_user = users ++ client ∷ [] })) client s
      ≡ (true, put_users p users s)
leave_last p users client s absent =
    rw (is_user-append client users, erase_user-append client users absent)

-- A client that joins a party that has members, and was not one of them, is let in, and when it
-- leaves again the parties are as they were.
pub join_and_leave :
    (id client first : ℕ) (others : List ℕ) (leader : ℕ) (s : PartySystem)
    → find_party id s.party_array
      ≡ some (record { party_id = id; party_leader_uuid = leader; party_user = first ∷ others })
    → is_user client (first ∷ others) ≡ false
    → ((join_party id client s).0 ≡ true)
      × (leave_party id client (join_party id client s).1 ≡ (true, s))
unfolding join_party leave_party
join_and_leave id client first others leader s found absent =
    let p : Party = record {
      party_id = id;
      party_leader_uuid = leader;
      party_user = first ∷ others;
    } in
    let q : Party = record p { party_user = (first ∷ others) ++ client ∷ [] } in
    let joined : join_found (find_party id s.party_array) client s
        ≡ (true, record s { party_array = update q s.party_array }) =
      rw found in
    (
      rw joined,
      rw joined (
          ap (λ o. leave_found o client (record s { party_array = update q s.party_array }))
            (find_party_updated id s.party_array p q found refl)
          ∙ leave_last p (first ∷ others) client (record s { party_array = update q s.party_array })
              absent
          ∙ ap (λ ps. (true, record s { party_array = ps }))
              (update-update q p s.party_array refl
                ∙ (find_party-update id s.party_array p found).1)),
    )

-- What the server does with parties.
pub data Call : Type 0 where
  creates : (client : ℕ) → Call
  joins leaves disbands : (party_id client : ℕ) → Call

unfoldable pub call : Call → PartySystem → PartySystem
call (creates client) s = (create_party client s).1
call (joins party_id client) s = (join_party party_id client s).1
call (leaves party_id client) s = (leave_party party_id client s).1
call (disbands party_id client) s = disband_party party_id client s

unfoldable pub calls : List Call → PartySystem → PartySystem
calls [] s = s
calls (c ∷ cs) s = calls cs (call c s)

abbrev pub empty_party : ℕ → ℕ → Party
empty_party id leader = record { party_id = id; party_leader_uuid = leader; party_user = [] }

not_eq : (a b : ℕ) → a ≢ b → (a == b) ≡ false
not_eq a b ne = ground arith

find_party-append :
    (id : ℕ) (parties : List Party) (x p : Party)
    → find_party id parties ≡ some p
    → find_party id (parties ++ x ∷ []) ≡ some p
find_party-append id [] x p e = absurd cc
find_party-append id (y ∷ parties) x p e =
    elim (if_party (y.party_id == id) y p (find_party id parties) e) [
      | inl (b, q) ↦ rw b (ap some q)
      | inr (b, r) ↦ rw b (find_party-append id parties x p r)
    ]

-- Another party is put, or the same one as it was found.
find_party-update_ne :
    (id : ℕ) (parties : List Party) (q : Party)
    → q.party_id ≢ id
    → find_party id (update q parties) ≡ find_party id parties
find_party-update_ne id [] q ne = refl
find_party-update_ne id (x ∷ parties) q ne = elim (Bool-cases (x.party_id == q.party_id)) [
  | inl b ↦
      let off : (q.party_id == id) ≡ false = not_eq q.party_id id ne in
      rw (b, off, ap (λ k. k == id) ((==_iff x.party_id q.party_id).0 b) ∙ off)
  | inr b ↦ rw (b, find_party-update_ne id parties q ne)
]

put_keeps :
    (id leader : ℕ) (p : Party) (users : List ℕ) (s : PartySystem)
    → p.party_id ≢ id
    → find_party id s.party_array ≡ some (empty_party id leader)
    → find_party id (put_users p users s).party_array ≡ some (empty_party id leader)
put_keeps id leader p users s ne e =
    find_party-update_ne id s.party_array (record p { party_user = users }) ne ∙ e

filled : (u : ℕ) (users : List ℕ) → (u ∷ users) ≡ [] → ⊥
filled u users e = cc

user_of_none : (c : ℕ) (users : List ℕ) → users ≡ [] → is_user c users ≡ true → ⊥
user_of_none c [] n b = cc
user_of_none c (u ∷ users) n b = filled u users n

some-users : (p q : Party) → some p ≡ some q → p.party_user ≡ q.party_user
some-users p q e = ap Party.party_user (inner p q e)
  where
    inner : (p q : Party) → some p ≡ some q → p ≡ q
    inner p q e = cc

-- A party with users is another one.
other_party :
    (id leader other : ℕ) (s : PartySystem) (p : Party)
    → find_party other s.party_array ≡ some p
    → find_party id s.party_array ≡ some (empty_party id leader)
    → (p.party_user ≡ [] → ⊥)
    → p.party_id ≢ id
other_party id leader other s p f e used i =
    let (o, _) = find_party-update other s.party_array p f in
    used (
      some-users p (empty_party id leader)
        (sym f ∙ ap (λ k. find_party k s.party_array) (sym o ∙ i) ∙ e))

module _ (id leader other client : ℕ) (s : PartySystem)
    (e : find_party id s.party_array ≡ some (empty_party id leader)) where
  join_keeps :
      (o : Option Party)
      → find_party other s.party_array ≡ o
      → find_party id (join_found o client s).1.party_array ≡ some (empty_party id leader)
  join_keeps none f = e
  join_keeps (some p) f = users_keep p.party_user refl
    where
      users_keep :
          (users : List ℕ)
          → p.party_user ≡ users
          → find_party id (join_users p users client s).1.party_array ≡ some (empty_party id leader)
      users_keep [] q = e
      users_keep (u ∷ users) q =
          put_keeps id leader p ((u ∷ users) ++ client ∷ []) s
            (other_party id leader other s p f e (λ n. absurd (filled u users (sym q ∙ n)))) e

  leave_keeps :
      (o : Option Party)
      → find_party other s.party_array ≡ o
      → find_party id (leave_found o client s).1.party_array ≡ some (empty_party id leader)
  leave_keeps none f = e
  leave_keeps (some p) f = elim (Bool-cases (is_user client p.party_user)) [
    | inl b ↦ rw b (
        put_keeps id leader p (erase_user client p.party_user) s
          (other_party id leader other s p f e (λ n. absurd (user_of_none client p.party_user n b)))
          e)
    | inr b ↦ rw b e
  ]

call_keeps :
    (c : Call) (id leader : ℕ) (s : PartySystem)
    → find_party id s.party_array ≡ some (empty_party id leader)
    → find_party id (call c s).party_array ≡ some (empty_party id leader)
unfolding call create_party join_party leave_party
call_keeps (creates client) id leader s e = find_party-append id s.party_array _ _ e
call_keeps (joins other client) id leader s e =
    join_keeps id leader other client s e (find_party other s.party_array) refl
call_keeps (leaves other client) id leader s e =
    leave_keeps id leader other client s e (find_party other s.party_array) refl
call_keeps (disbands other client) id leader s e = e

-- A party that everyone has left stays empty, whatever is called afterwards: nobody can join it.
pub empty_party_stays :
    (cs : List Call) (id leader : ℕ) (s : PartySystem)
    → find_party id s.party_array ≡ some (empty_party id leader)
    → find_party id (calls cs s).party_array ≡ some (empty_party id leader)
unfolding calls
empty_party_stays [] id leader s e = e
empty_party_stays (c ∷ cs) id leader s e =
    empty_party_stays cs id leader (call c s) (call_keeps c id leader s e)
