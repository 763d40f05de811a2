-- ===== src/Lobby/Refinement/Runs.antt =====
-- The lobby over any sequence of calls from its sessions.
use ue4team_project_server.Common.{
  arith, ◌≤◌, ◌+◌, Any, ◌⊎◌, pos, ℕ, ◌≡◌, refl, sym, ap, ◌∙◌, subst, List, [], ◌∷◌, ◌++◌, some,
  text_keys,
}
use ue4team_project_server.Common.Keyed.{find}
use ue4team_project_server.Stream.ByteStream.{set_access_offset}
use ue4team_project_server.Server.Client.{Client}
use ue4team_project_server.Server.RemoteSessionInfo.{RemoteSessionInfo}
use ue4team_project_server.Lobby.State.{Lobby, Statements, not_confirm}
use ue4team_project_server.Lobby.Dispatch.{
  on_active, on_close, process_packet, process_channel_packet,
}
use ue4team_project_server.Lobby.Spec.{apply, Label, Run, here, next, nobody, grants}
use ue4team_project_server.Lobby.Spec.Admission.{WasGranted, Run-IsHall}
use ue4team_project_server.Lobby.Spec.Counting.{grants_to, used, waiting, step-used}
use ue4team_project_server.Lobby.Quiet.{guest, seat, hall}
use ue4team_project_server.Lobby.Refinement.Steps.{process_packet-Follows}
use ue4team_project_server.Lobby.Refinement.Events.{
  Event, active, close, packet, channel_packet, told, Steps, Follows-Steps, on_active-Steps,
  on_close-Steps, offset-Steps,
}

unfoldable pub all_told : List Event → List RemoteSessionInfo
unfolding told
all_told [] = []
all_told (e ∷ es) = told e ++ all_told es

module _ {Db : Type 0} (d : Statements Db) where
  unfoldable pub on_event : Event → Lobby Db → Lobby Db
  on_event (active uuid address) s = on_active uuid address s
  on_event (close key) s = (on_close key s).1
  on_event (packet now key stream) s = (process_packet d now key stream s).1
  on_event (channel_packet stream) s = (process_channel_packet stream s).1

  -- The calls stand newest first. A call that throws or faults leaves what it had changed, and the next
  -- call goes on from there: a run that ends with a fault is one of these.
  unfoldable pub run : List Event → Lobby Db → Lobby Db
  unfolding on_event
  run [] s = s
  run (e ∷ es) s = on_event e (run es s)

module _ {Db : Type 0} (d : Statements Db) where
  on_event-Steps :
      (e : Event) (s : Lobby Db)
      → ((key : List ℕ) (c : Client) → find key s.client_storage ≡ some c → c.uuid ≡ key)
      → Steps s (on_event d e s) (told e)
  unfolding on_event told process_channel_packet
  on_event-Steps (active uuid address) s keyed = on_active-Steps s uuid address
  on_event-Steps (close key) s keyed = on_close-Steps s key
  on_event-Steps (packet now key stream) s keyed =
      Follows-Steps s _ (process_packet-Follows d now key stream s (keyed key))
  on_event-Steps (channel_packet stream) s keyed = offset-Steps s (set_access_offset 2 stream)

-- What a run of the lobby comes to, seen as a run of the machine.
pub record Refines {Db : Type 0} (es : List Event) (s : Lobby Db) : Type 0 where
  pub labels : List Label
  pub runs : Run nobody labels (hall s)
  pub told_grants : grants labels ≡ all_told es

step-Refines :
    {Db : Type 0} (e : Event) (es : List Event) (s t : Lobby Db)
    → Refines es s
    → Steps s t (told e)
    → Refines (e ∷ es) t
unfolding grants all_told
step-Refines e es s t r f = record {
  labels = f.label ∷ r.labels;
  runs = subst (Run nobody (f.label ∷ r.labels)) (sym f.reached) (next r.runs f.label f.allowed);
  told_grants = f.grants_new (grants r.labels) ∙ ap (λ infos. told e ++ infos) r.told_grants;
}

keyed_by :
    {Db : Type 0} (es : List Event) (s : Lobby Db) (key : List ℕ) (c : Client)
    → Refines es s
    → find key s.client_storage ≡ some c
    → c.uuid ≡ key
keyed_by es s key c r e = ((Run-IsHall r.runs).entered key (guest c) (ap seat e)).0

-- The lobby, from an empty storage and an empty map of authorities and over any sequence of sessions
-- that open or close, packets of clients and packets of the intermediate server, whatever the database
-- answers, throws or faults, has taken a run of the machine of Lobby.Spec that ends in what the lobby holds
-- and was granted exactly the authorities that the intermediate server's packets told the lobby of.
pub run-Refines :
    {Db : Type 0} (d : Statements Db) (es : List Event) (s : Lobby Db)
    → s.client_storage ≡ []
    → s.authority_map ≡ []
    → Refines es (run d es s)
unfolding run find grants all_told
run-Refines d [] s clients authorities = record {
  labels = [];
  runs = subst (Run nobody []) (sym empty) here;
  told_grants = refl;
}
  where
    empty : hall s ≡ nobody
    empty = λ i. record {
      tickets = λ id. find id (authorities i);
      guests = λ key. seat (find key (clients i));
    }
run-Refines d (e ∷ es) s clients authorities =
    let r = run-Refines d es s clients authorities in
    step-Refines e es (run d es s) (on_event d e (run d es s)) r
      (on_event-Steps d e (run d es s) λ key c. keyed_by es (run d es s) key c r)

module _ {Db : Type 0} (d : Statements Db) where
  -- How often a call of the run has taken an authority of the id out of the map.
  unfoldable pub uses : List ℕ → List Event → Lobby Db → ℕ
  uses id [] s = 0
  uses id (e ∷ es) s =
      let t = run d es s in
      used (find id t.authority_map) (find id (on_event d e t).authority_map) + uses id es s

  uses-le :
      (id : List ℕ) (es : List Event) (s : Lobby Db)
      → s.client_storage ≡ []
      → s.authority_map ≡ []
      → uses id es s + waiting (find id (run d es s).authority_map) ≤ grants_to id (all_told es)
  unfolding uses run all_told grants_to find
  uses-le id [] s clients authorities = rw authorities (omega arith)
  uses-le id (e ∷ es) s clients authorities =
      let t : Lobby Db = run d es s in
      let r = run-Refines d es s clients authorities in
      let f = on_event-Steps d e t λ key c. keyed_by es t key c r in
      let step =
        step-used id (f.label) (hall t) (all_told es) (uses id es s)
          (uses-le id es s clients authorities) in
      let reached : (apply (f.label) (hall t)).tickets id ≡ find id (on_event d e t).authority_map =
        ap (λ h. h.tickets id) (sym (f.reached)) in
      subst
        (λ o.
          used (find id t.authority_map) o + uses id es s + waiting o
          ≤ grants_to id (told e ++ all_told es))
        reached
        (subst
          (λ infos.
            used (find id t.authority_map) ((apply (f.label) (hall t)).tickets id)
              + uses id es s
              + waiting ((apply (f.label) (hall t)).tickets id)
            ≤ grants_to id infos)
          (f.grants_new (all_told es)) step)

-- In a lobby that any such sequence has led to, each client stands under its own UUID, and a client that is
-- past kNotConfirm has the id, the account number and the address of an authority that the intermediate
-- server told the lobby of. And the calls that have used up an authority of an id are at most as many as the
-- authorities told for that id.
pub clients_were_granted :
    {Db : Type 0} (d : Statements Db) (es : List Event) (s : Lobby Db)
    → s.client_storage ≡ []
    → s.authority_map ≡ []
    → ((key : List ℕ) (c : Client)
        → find key (run d es s).client_storage ≡ some c
        → (c.uuid ≡ key)
          × ((c.state ≡ pos not_confirm)
              ⊎ Any
                  (λ info.
                    (info.id ≡ c.account) × (info.accid ≡ c.accid) × (info.ip ≡ c.remote_address))
                  (all_told es)))
      × ((id : List ℕ) → uses d id es s ≤ grants_to id (all_told es))
clients_were_granted d es s clients authorities =
    let r = run-Refines d es s clients authorities in
    (
      (λ key c e.
          subst
            (λ infos. (c.uuid ≡ key) × ((c.state ≡ pos not_confirm) ⊎ WasGranted (guest c) infos))
            r.told_grants ((Run-IsHall r.runs).entered key (guest c) (ap seat e))),
      (λ id. omega (arith, uses-le d id es s clients authorities)),
    )
