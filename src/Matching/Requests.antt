-- ===== src/Matching/Requests.antt =====
-- The requests of the clients about matches: what they come to, and that no key is read from an empty
-- seat.
use ue4team_project_server.Common.{
  ℕ, ◌<◌, ◌≡◌, refl, Bool, true, false, not, ◌&&◌, ◌||◌, fault, Option, none, some, ◌∷◌, ◌++◌, All,
  arith, Bool-cases, inl, inr, ◌⊎◌, Result, ok, throw, run_time_error, null_pointer,
}
use ue4team_project_server.ZoneSystem.Tables.{Tables}
use ue4team_project_server.Matching.Match.{confirm, Match}
use ue4team_project_server.Matching.Seats.{confirm_id, confirm-IsMatch, Agreed, IsMatch}
use ue4team_project_server.Matching.Service.{
  has_map, opened, remove_match, erase_client, confirm_in, match_confirm, close_with,
  confirmed_with, handle_matching_confirm_request, on_close, Service, get_client,
  get_match_from_weak,
}
use ue4team_project_server.Matching.Binding.{Bound}
use ue4team_project_server.Matching.Withdrawal.{Left, match_in_queue, match_remove-IsSystem}
use ue4team_project_server.Matching.Spawning.{someone_lacks, spawn_everyone}
use ue4team_project_server.Matching.Queue.{All-map, IsSystem, put-IsSystem, remove_match-IsSystem}

-- The call returns, and the queue is well formed after it.
abbrev pub Answered : Result Service → Type 0
Answered r = (v : Service) × (r ≡ ok v) × IsSystem v.system

-- What a request and a withdrawal of the client come to, by whether a match of the client lives.
abbrev pub Outcome : Bool → Option Match → ℕ → ℕ → Service → Result Service → Type 0
Outcome true none key mapid v r = Bound key mapid v r
Outcome true (some m) key mapid v r = r ≡ throw run_time_error
Outcome false none key mapid v r = r ≡ throw null_pointer
Outcome false (some m) key mapid v r = Left key m v r

-- Whether the confirmation is the last that a match waits for, and the new zone is null because the map has
-- no data, or a client of the match has no character.
abbrev pub is_lost : Tables → Option Match → ℕ → Bool → Service → Bool
is_lost tables none key match_ok v = false
is_lost tables (some m) key false v = false
is_lost tables (some m) key true v =
    let (after, opens) = confirm key m in
    opens && (not (has_map tables after.mapid) || someone_lacks v.clients after.seats)

abbrev pub AnsweredUnless : Bool → Result Service → Type 0
AnsweredUnless lost r = ((lost ≡ false) × Answered r) ⊎ ((lost ≡ true) × (r ≡ fault))

confirmed_with-AnsweredUnless :
    (tables : Tables) (m : Match) (b : Bool) (v : Service)
    → IsSystem v.system
    → ((b ≡ false) × IsMatch m × (m.match_instance_id < v.system.match_id))
      ⊎ ((b ≡ true) × All Agreed m.seats)
    → AnsweredUnless
        (b && (not (has_map tables m.mapid) || someone_lacks v.clients m.seats))
        (confirmed_with tables (m, b) v)
confirmed_with-AnsweredUnless tables m false v h (inl (_, i, l)) =
    inl (refl, (_, refl, put-IsSystem m v.system i l h))
confirmed_with-AnsweredUnless tables m false v h (inr (e, _)) = absurd cc
confirmed_with-AnsweredUnless tables m true v h (inl (e, _, _)) = absurd cc
confirmed_with-AnsweredUnless tables m true v h (inr (_, a)) =
    elim (Bool-cases (has_map tables m.mapid)) [
      | inl d ↦
          elim (spawn_everyone v.clients m.seats (All-map _ _ m.seats (λ s q. (q.0, q.1)) a)) [
            | inl (lacks, (events, e)) ↦ inl (
              rw d lacks,
              (
                record v {
                  system = remove_match m.match_instance_id v.system;
                  events = v.events ++ opened m.mapid ∷ events;
                },
                rw (d, e),
                remove_match-IsSystem m.match_instance_id v.system h,
              ),
            )
            | inr (lacks, e) ↦ inr (rw d lacks, rw (d, e))
          ]
      | inr d ↦ inr (rw d, rw d)
    ]

-- With a well-formed queue, a confirmation or a refusal of any client returns and leaves the queue well formed,
-- but for one case, in which it faults: the confirmation is the last that a match waits for, and the tables
-- have no data for the map of the match, or one of the match's clients has no character. So no key is read
-- from an empty seat.
pub handle_matching_confirm_request-Answered :
    (tables : Tables) (client_key : ℕ) (match_ok : Bool) (v : Service)
    → IsSystem v.system
    → AnsweredUnless
        (is_lost tables (get_match_from_weak client_key v) client_key match_ok v)
        (handle_matching_confirm_request tables client_key match_ok v)
unfolding handle_matching_confirm_request match_confirm
handle_matching_confirm_request-Answered tables key match_ok v h =
    confirm_in-AnsweredUnless (get_match_from_weak key v) match_ok refl
  where
    confirm_in-AnsweredUnless :
        (o : Option Match) (b : Bool)
        → get_match_from_weak key v ≡ o
        → AnsweredUnless (is_lost tables o key b v) (confirm_in tables o key b v)
    confirm_in-AnsweredUnless none b e = inl (refl, (v, refl, h))
    confirm_in-AnsweredUnless (some m) false e =
        inl (refl, (_, refl, remove_match-IsSystem m.match_instance_id v.system h))
    confirm_in-AnsweredUnless (some m) true e =
        let (i, l, _) = match_in_queue (get_client key v.clients) v.system m h e in
        confirmed_with-AnsweredUnless tables (confirm key m).0 (confirm key m).1 v h
          (elim (confirm-IsMatch key m i) [
            | inl (f, j) ↦ inl (f, j, omega (arith, confirm_id key m))
            | inr (t, a) ↦ inr (t, a)
          ])

-- A client that disconnects leaves a well-formed queue well formed.
pub on_close-IsSystem :
    (key : ℕ) (v : Service) → IsSystem v.system → IsSystem (on_close key v).system
unfolding on_close
on_close-IsSystem key v h = closed (get_match_from_weak key v) refl
  where
    closed :
        (o : Option Match)
        → get_match_from_weak key v ≡ o
        → IsSystem (close_with o key (record v { clients = erase_client key v.clients })).system
    closed none e = h
    closed (some m) e =
        let (i, l, _) = match_in_queue (get_client key v.clients) v.system m h e in
        match_remove-IsSystem key m _ i l h
