-- ===== src/ZoneServer/Spares.antt =====
-- Which calls leave a character alone, and all clients and the population of all zones: a law for each way of
-- putting calls together.
use ue4team_project_server.Common.{
  ℕ, ◌≡◌, ◌≢◌, refl, sym, ap, ◌∙◌, List, [], ◌∷◌, Option, none, some, Bool, true, false, Bool-cases,
  inl, inr, if◌then◌else◌, ◌==◌, ==_iff, Result, ok, throw, fault, number_keys,
}
use ue4team_project_server.Common.Calls.{Call, after, ◌>>=◌, ◌>>◌, return, get, lift}
use ue4team_project_server.Common.Keyed.{find, assign, find-assign}
use ue4team_project_server.ZoneServer.State.{
  World, Character, Monster, Zone, ZoneClient, Outgoing, with_mob, put_in, put_chr, put_mob,
  send_to, is_except, deliver, broadcast,
}

-- Who runs the monsters of a zone, and who is in it.
pub record Population : Type 0 where
  pub monster_controller_id : ℕ
  pub chrs : List (ℕ × ℕ)

abbrev pub populated : Option Zone → Option Population
populated none = none
populated (some z) =
    some (record { monster_controller_id = z.monster_controller_id; chrs = z.chrs })

abbrev pub population : ℕ → World → Option Population
population id s = populated (find id s.zones)

pub record Spared (a : ℕ) (s t : World) : Type 0 where
  pub character : find a t.characters ≡ find a s.characters
  pub clients : t.clients ≡ s.clients
  pub zones : (id : ℕ) → population id t ≡ population id s

-- Whatever the call comes to, the character at the address is as it was.
pub record Spares (a : ℕ) {A : Type 0} (call : Call World A) : Type 0 where
  pub spares : (s : World) → Spared a s (call s).1

populated-mob :
    (id mob_id : ℕ) (mob : Monster) (z : Option Zone) (s : World) (j : ℕ)
    → find id s.zones ≡ z
    → population j (put_in id mob_id mob z s) ≡ population j s
populated-mob id mob_id mob none s j e = refl
populated-mob id mob_id mob (some z) s j e = elim (Bool-cases (id == j)) [
  | inl same ↦
      rw (find-assign id (with_mob mob_id mob z) s.zones j, same)
        (let here : find j s.zones ≡ some z =
            ap (λ k. find k s.zones) (sym ((==_iff id j).0 same)) ∙ e in
          rw here)
  | inr other ↦ rw (find-assign id (with_mob mob_id mob z) s.zones j, other)
]

module _ {a : ℕ} where
  Spared-refl : (s : World) → Spared a s s
  Spared-refl s = record { character = refl; clients = refl; zones = λ id. refl }

  Spared-trans : {s t u : World} → Spared a s t → Spared a t u → Spared a s u
  Spared-trans p q = record {
    character = q.character ∙ p.character;
    clients = q.clients ∙ p.clients;
    zones = λ id. q.zones id ∙ p.zones id;
  }

  after-Spares :
      {A B : Type 0} (r : Result A × World) (next : A → Call World B) (s : World)
      → Spared a s r.1
      → ((x : A) → Spares a (next x))
      → Spared a s (after r next).1
  after-Spares (ok x, t) next s p q = Spared-trans p ((q x).spares t)
  after-Spares (throw type, t) next s p q = p
  after-Spares (fault, t) next s p q = p

  pub Spares-bind :
      {A B : Type 0} (call : Call World A) (next : A → Call World B)
      → Spares a call
      → ((x : A) → Spares a (next x))
      → Spares a (call >>= next)
  Spares-bind call next p q = record { spares = λ s. after-Spares (call s) next s (p.spares s) q }

  pub Spares-then :
      {B : Type 0} (call : Call World (Unit {0})) (next : Call World B)
      → Spares a call
      → Spares a next
      → Spares a (call >> next)
  Spares-then call next p q = Spares-bind call (λ _. next) p (λ _. q)

  pub Spares-if :
      {A : Type 0} (b : Bool) (x y : Call World A)
      → Spares a x
      → Spares a y
      → Spares a (if b then x else y)
  Spares-if true x y p q = p
  Spares-if false x y p q = q

  pub Spares-lift : {A : Type 0} (r : Result A) → Spares a (lift r)
  Spares-lift r = record { spares = Spared-refl }

  pub Spares-return : {A : Type 0} (x : A) → Spares a (return x)
  Spares-return x = record { spares = Spared-refl }

  pub Spares-get : Spares a get
  Spares-get = record { spares = Spared-refl }

  -- A write of another character.
  pub Spares-put_chr : (b : ℕ) (chr : Character) → b ≢ a → Spares a (put_chr b chr)
  Spares-put_chr b chr other = record {
    spares = λ s. record { character = elsewhere s.characters; clients = refl; zones = λ id. refl };
  }
    where
      elsewhere : (m : List (ℕ × Character)) → find a (assign b chr m) ≡ find a m
      elsewhere m = elim (Bool-cases (b == a)) [
        | inl same ↦ absurd (other ((==_iff b a).0 same))
        | inr e ↦ find-assign b chr m a ∙ rw e
      ]

  put_in-Spared :
      (id mob_id : ℕ) (mob : Monster) (z : Option Zone) (s : World)
      → find id s.zones ≡ z
      → Spared a s (put_in id mob_id mob z s)
  put_in-Spared id mob_id mob none s e = Spared-refl s
  put_in-Spared id mob_id mob (some z) s e = record {
    character = refl;
    clients = refl;
    zones = λ j. populated-mob id mob_id mob (some z) s j e;
  }

  pub Spares-put_mob :
      (id : Option ℕ) (mob_id : ℕ) (mob : Monster) → Spares a (put_mob id mob_id mob)
  Spares-put_mob none mob_id mob = Spares-return tt
  Spares-put_mob (some id) mob_id mob = record {
    spares = λ s. put_in-Spared id mob_id mob (find id s.zones) s refl;
  }

  pub Spares-send_to :
      (packet : Outgoing) (client : Option ZoneClient) → Spares a (send_to packet client)
  Spares-send_to packet none = Spares-return tt
  Spares-send_to packet (some client) = record {
    spares = λ s. record { character = refl; clients = refl; zones = λ id. refl };
  }

ruleset pieces =
    (Spares-if, Spares-bind, Spares-then, Spares-lift, Spares-return, Spares-get, Spares-send_to)

deliver-Spares : {a : ℕ} (packet : Outgoing) (address : ℕ) → Spares a (deliver packet address)
deliver-Spares packet address = search pieces depth 30

pub Spares-broadcast :
    {a : ℕ} (packet : Outgoing) (except : Option ℕ) (chrs : List (ℕ × ℕ))
    → Spares a (broadcast packet except chrs)
unfolding broadcast
Spares-broadcast packet except [] = Spares-return tt
Spares-broadcast packet except ((oid, address) ∷ chrs) =
    Spares-then _ _
      (Spares-if (is_except except oid) _ _ (Spares-return tt) (deliver-Spares packet address))
      (Spares-broadcast packet except chrs)

-- The rules for the calls of which the handlers are made.
pub ruleset sparing = (
  Spares-if, Spares-bind, Spares-then, Spares-lift, Spares-return, Spares-get, Spares-put_chr,
  Spares-put_mob, Spares-send_to, Spares-broadcast,
)
