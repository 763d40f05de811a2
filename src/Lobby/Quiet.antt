-- ===== src/Lobby/Quiet.antt =====
-- Which calls leave the hall of Lobby/Spec.antt as it is: a law for each way of putting calls together.
use ue4team_project_server.Common.{
  ℕ, ◌≡◌, refl, sym, ap, ◌∙◌, subst, List, Option, none, some, Bool, true, false, Bool-cases, inl,
  inr, if◌then◌else◌, Result, ok, throw, fault, text_keys, same_text, same_text_iff,
}
use mathlib.Core.Path.{fun_ext}
use ue4team_project_server.Common.Calls.{Call, after, ◌>>=◌, ◌>>◌, return, get, lift}
use ue4team_project_server.Common.Keyed.{find, assign, find-assign, set_at}
use ue4team_project_server.Server.Client.{Client, close}
use ue4team_project_server.Lobby.State.{
  Lobby, Sent, execute, on_database, send, close_client, touch_slots, put_slots,
}
use ue4team_project_server.Lobby.Spec.{Guest, Hall}

abbrev pub guest : Client → Guest
guest c = record {
  uuid = c.uuid;
  state = c.state;
  accid = c.accid;
  account = c.account;
  address = c.remote_address;
}

abbrev pub seat : Option Client → Option Guest
seat none = none
seat (some c) = some (guest c)

module _ {Db : Type 0} where
  -- What the specification sees of the lobby.
  abbrev pub hall : Lobby Db → Hall
  hall s = record {
    tickets = λ id. find id s.authority_map;
    guests = λ key. seat (find key s.client_storage);
  }

  abbrev pub Seated : Client → Lobby Db → Type 0
  Seated client s = seat (find client.uuid s.client_storage) ≡ some (guest client)

  -- Whatever the call comes to, the hall is as it was.
  pub record Quiet (client : Client) {A : Type 0} (call : Call (Lobby Db) A) : Type 0 where
    pub keeps : (s : Lobby Db) → Seated client s → hall (call s).1 ≡ hall s

module _ {Db : Type 0} (client : Client) where
  after-keeps :
      {A B : Type 0} (r : Result A × Lobby Db) (next : A → Call (Lobby Db) B) (s : Lobby Db)
      → Seated client s
      → hall r.1 ≡ hall s
      → ((a : A) → Quiet client (next a))
      → hall (after r next).1 ≡ hall s
  after-keeps (ok a, t) next s seated e q =
      (q a).keeps t
        (subst (λ (h : Hall). h.guests client.uuid ≡ some (guest client)) (sym e) seated)
      ∙ e
  after-keeps (throw type, t) next s seated e q = e
  after-keeps (fault, t) next s seated e q = e

  pub Quiet-bind :
      {A B : Type 0} (call : Call (Lobby Db) A) (next : A → Call (Lobby Db) B)
      → Quiet client call
      → ((a : A) → Quiet client (next a))
      → Quiet client (call >>= next)
  Quiet-bind call next q k = record {
    keeps = λ s seated. after-keeps (call s) next s seated (q.keeps s seated) k;
  }

  pub Quiet-then :
      {B : Type 0} (call : Call (Lobby Db) (Unit {0})) (next : Call (Lobby Db) B)
      → Quiet client call
      → Quiet client next
      → Quiet client (call >> next)
  Quiet-then call next q k = Quiet-bind call (λ _. next) q (λ _. k)

  pub Quiet-if :
      {A : Type 0} (b : Bool) (x y : Call (Lobby Db) A)
      → Quiet client x
      → Quiet client y
      → Quiet client (if b then x else y)
  Quiet-if true x y qx qy = qx
  Quiet-if false x y qx qy = qy

  pub Quiet-lift : {A : Type 0} (r : Result A) → Quiet {Db = Db} client (lift r)
  Quiet-lift r = record { keeps = λ s seated. refl }

  pub Quiet-return : {A : Type 0} (a : A) → Quiet {Db = Db} client (return a)
  Quiet-return a = record { keeps = λ s seated. refl }

  pub Quiet-get : Quiet {Db = Db} client get
  Quiet-get = record { keeps = λ s seated. refl }

  pub Quiet-send : (packet : Sent) → Quiet {Db = Db} client (send packet)
  Quiet-send packet = record { keeps = λ s seated. refl }

  pub Quiet-touch_slots : (uuid : List ℕ) → Quiet {Db = Db} client (touch_slots uuid)
  Quiet-touch_slots uuid = record { keeps = λ s seated. refl }

  pub Quiet-put_slots : (uuid slots : List ℕ) → Quiet {Db = Db} client (put_slots uuid slots)
  Quiet-put_slots uuid slots = record { keeps = λ s seated. refl }

  pub Quiet-execute : {A : Type 0} (statement : Call Db A) → Quiet client (execute statement)
  Quiet-execute statement = record { keeps = λ s seated. done (statement s.database) s }
    where
      done : {A : Type 0} (r : Result A × Db) (s : Lobby Db) → hall (on_database r s).1 ≡ hall s
      done (result, database) s = refl

pub seat-assign :
    (uuid : List ℕ) (c : Client) (m : List (List ℕ × Client)) (key : List ℕ)
    → seat (find key (assign uuid c m)) ≡ set_at uuid (guest c) (λ k. seat (find k m)) key
seat-assign uuid c m key = elim (Bool-cases (same_text uuid key)) [
  | inl same ↦ rw (find-assign uuid c m key, same)
  | inr other ↦ rw (find-assign uuid c m key, other)
]

-- A write of the same guest.
set_at_self :
    (uuid : List ℕ) (g : Guest) (f : List ℕ → Option Guest) (key : List ℕ)
    → f uuid ≡ some g
    → set_at uuid g f key ≡ f key
set_at_self uuid g f key e = elim (Bool-cases (same_text uuid key)) [
  | inl same ↦ rw same (sym e ∙ ap f ((same_text_iff uuid key).0 same))
  | inr other ↦ rw other
]

-- Closing the session of a client leaves the guest.
pub close-hall :
    {Db : Type 0} (uuid : List ℕ) (c : Client) (s : Lobby Db)
    → seat (find uuid s.client_storage) ≡ some (guest c)
    → hall (record s { client_storage = assign uuid (close c) s.client_storage }) ≡ hall s
close-hall uuid c s seated =
    ap
      (λ (guests : List ℕ → Option Guest). record {
        tickets = λ id. find id s.authority_map;
        guests = guests;
      })
      (fun_ext λ key.
        seat-assign uuid (close c) s.client_storage key
        ∙ set_at_self uuid (guest c) (λ k. seat (find k s.client_storage)) key seated)

pub Quiet-close : {Db : Type 0} (client : Client) → Quiet {Db = Db} client (close_client client)
Quiet-close client = record { keeps = λ s seated. close-hall client.uuid client s seated }

pub ruleset quiet = (
  Quiet-if, Quiet-bind, Quiet-then, Quiet-lift, Quiet-return, Quiet-get, Quiet-send,
  Quiet-touch_slots, Quiet-put_slots, Quiet-execute, Quiet-close,
)
