-- ===== src/Intermediate/Balance.antt =====
-- UE4IntermediateServer/IntermediateServer.cpp: GetServerLoadBalance.
use ue4team_project_server.Common.{
  ℕ, ◌≡◌, ◌≢◌, ap, refl, ◌∙◌, List, [], ◌∷◌, true, false, Bool-cases, inl, inr, ◌⊎◌, All, Any,
  Result, ok, ◌>>=◌, ◌==◌, if◌then◌else◌, first_ok, arith, ==_iff,
}
use ue4team_project_server.Server.RemoteServerInfo.{RemoteServerInfo, get_current_capacity_ratio}
use ue4team_project_server.Intermediate.State.{Doubles, Ordered}

pub record Best (D : Type 0) : Type 0 where
  pub ratio : D
  pub uuid : List ℕ

module _ {D : Type 0} (f : Doubles D) where
  abbrev pub better : List ℕ → D → Best D → Best D
  better uuid ratio b = if f.greater b.ratio ratio then record { ratio = ratio; uuid = uuid } else b

  abbrev pub consider : ℕ → List ℕ → RemoteServerInfo → Best D → Result (Best D)
  consider type uuid info b =
      if type == info.server_type
      then (get_current_capacity_ratio f.divide info >>= λ ratio. ok (better uuid ratio b))
      else ok b

  unfoldable pub balance : ℕ → List (List ℕ × RemoteServerInfo) → Best D → Result (Best D)
  balance type [] b = ok b
  balance type ((uuid, info) ∷ servers) b = do
    b' ← consider type uuid info b
    balance type servers b'

  unfoldable pub get_server_load_balance : ℕ → List (List ℕ × RemoteServerInfo) → Result (List ℕ)
  unfolding balance
  get_server_load_balance type servers = do
    b ← balance type servers (record { ratio = f.first_ratio; uuid = [] })
    ok (b.uuid)

  abbrev pub ratio_of : RemoteServerInfo → D
  ratio_of info = f.divide info.current_connection info.max_connection

  abbrev pub NotAbove : ℕ → D → List ℕ × RemoteServerInfo → Type 0
  NotAbove type ratio (uuid, info) =
      type ≡ info.server_type → f.greater ratio (ratio_of info) ≡ false

  -- The entry whose UUID and ratio the choice has.
  abbrev pub IsChoice : ℕ → Best D → List ℕ × RemoteServerInfo → Type 0
  IsChoice type b (uuid, info) =
      (type ≡ info.server_type) × (uuid ≡ b.uuid) × (ratio_of info ≡ b.ratio)

  considered :
      (type : ℕ) (uuid : List ℕ) (info : RemoteServerInfo) (b c : Best D)
      → Ordered f
      → consider type uuid info b ≡ ok c
      → (NotAbove type c.ratio (uuid, info))
        × ((c ≡ b) ⊎ ((f.greater b.ratio c.ratio ≡ true) × IsChoice type c (uuid, info)))
  unfolding get_current_capacity_ratio
  considered type uuid info b c o e = elim (Bool-cases (type == info.server_type)) [
    | inr other ↦ (λ same. absurd (clash same other), inl (ground (arith, e, other)))
    | inl same ↦ elim (Bool-cases (info.max_connection == 0)) [
      | inl zero ↦ absurd (ground (arith, e, same, zero))
      | inr some_max ↦ elim (Bool-cases (f.greater b.ratio (ratio_of info))) [
        | inl more ↦
            let e' : (ok (record { ratio = ratio_of info; uuid = uuid }) ≡ ok c) =
              rw (same, some_max, more) at e in
            (λ t. taken e', inr (chosen e' more ((==_iff type info.server_type).0 same)))
        | inr not_more ↦
            let e' : ok b ≡ ok c = rw (same, some_max, not_more) at e in
            (λ t. kept e' not_more, inl (ground (arith, e')))
      ]
    ]
  ]
    where
      clash : type ≡ info.server_type → (type == info.server_type) ≡ false → ⊥
      clash same other = ground arith

      taken :
          ok (record { ratio = ratio_of info; uuid = uuid }) ≡ ok c
          → f.greater c.ratio (ratio_of info) ≡ false
      taken p = ground (arith, p, o.irreflexive (ratio_of info))

      chosen :
          ok (record { ratio = ratio_of info; uuid = uuid }) ≡ ok c
          → f.greater b.ratio (ratio_of info) ≡ true
          → type ≡ info.server_type
          → (f.greater b.ratio c.ratio ≡ true) × IsChoice type c (uuid, info)
      chosen p more same = (ground (arith, p, more), (same, ground (arith, p), ground (arith, p)))

      kept :
          ok b ≡ ok c
          → f.greater b.ratio (ratio_of info) ≡ false
          → f.greater c.ratio (ratio_of info) ≡ false
      kept p not_more = ground (arith, p, not_more)

  -- What a choice after the first entry keeps of it.
  still :
      (b c r : Best D) (x : D)
      → Ordered f
      → f.greater c.ratio x ≡ false
      → (r ≡ c) ⊎ (f.greater c.ratio r.ratio ≡ true)
      → f.greater r.ratio x ≡ false
  still b c r x o e (inl same) = rw same e
  still b c r x o e (inr less) = elim (Bool-cases (f.greater r.ratio x)) [
    | inl more ↦ absurd (ground (arith, o.transitive c.ratio r.ratio x less more, e))
    | inr not_more ↦ not_more
  ]

  Chosen : ℕ → Best D → Best D → List (List ℕ × RemoteServerInfo) → Type 0
  Chosen type b r servers =
      All (NotAbove type r.ratio) servers
      × ((r ≡ b) ⊎ ((f.greater b.ratio r.ratio ≡ true) × Any (IsChoice type r) servers))

  balance-Chosen :
      (type : ℕ) (servers : List (List ℕ × RemoteServerInfo)) (b r : Best D)
      → Ordered f
      → balance type servers b ≡ ok r
      → Chosen type b r servers
  unfolding balance Chosen
  balance-Chosen type [] b r o e = (tt, inl (ground (arith, e)))
  balance-Chosen type ((uuid, info) ∷ servers) b r o e =
      let (c, first, next) = first_ok (balance type servers) (consider type uuid info b) e in
      let (lowest, from) = balance-Chosen type servers c r o next in
      let (above, was) = considered type uuid info b c o first in
      ((λ t. still b c r (ratio_of info) o (above t) (after from), lowest), chosen c was from)
    where
      after :
          {c : Best D}
          → (r ≡ c) ⊎ ((f.greater c.ratio r.ratio ≡ true) × Any (IsChoice type r) servers)
          → (r ≡ c) ⊎ (f.greater c.ratio r.ratio ≡ true)
      after (inl same) = inl same
      after (inr (less, any)) = inr less

      chosen :
          (c : Best D)
          → (c ≡ b) ⊎ ((f.greater b.ratio c.ratio ≡ true) × IsChoice type c (uuid, info))
          → (r ≡ c) ⊎ ((f.greater c.ratio r.ratio ≡ true) × Any (IsChoice type r) servers)
          → (r ≡ b)
            ⊎ ((f.greater b.ratio r.ratio ≡ true) × Any (IsChoice type r) ((uuid, info) ∷ servers))
      chosen c (inl was) (inl same) = inl (same ∙ was)
      chosen c (inl was) (inr (less, any)) = inr (rw was at less, inr any)
      chosen c (inr (more, choice)) (inl same) = inr (rw same more, inl (rw same choice))
      chosen c (inr (more, choice)) (inr (less, any)) =
          inr (o.transitive b.ratio c.ratio r.ratio more less, inr any)

  -- A server of the type for which the ratio is defined.
  abbrev pub HasCapacity : ℕ → List ℕ × RemoteServerInfo → Type 0
  HasCapacity type (uuid, info) = type ≡ info.server_type → info.max_connection ≢ 0

  consider-returns :
      (type : ℕ) (uuid : List ℕ) (info : RemoteServerInfo) (b : Best D)
      → HasCapacity type (uuid, info)
      → (c : Best D) × (consider type uuid info b ≡ ok c)
  unfolding get_current_capacity_ratio
  consider-returns type uuid info b h = elim (Bool-cases (type == info.server_type)) [
    | inr other ↦ (b, rw other)
    | inl same ↦ (
      better uuid (ratio_of info) b,
      rw (same, nonzero (h ((==_iff type info.server_type).0 same))),
    )
  ]
    where
      nonzero : info.max_connection ≢ 0 → (info.max_connection == 0) ≡ false
      nonzero n = ground arith

  balance-returns :
      (type : ℕ) (servers : List (List ℕ × RemoteServerInfo)) (b : Best D)
      → All (HasCapacity type) servers
      → (r : Best D) × (balance type servers b ≡ ok r)
  unfolding balance
  balance-returns type [] b h = (b, refl)
  balance-returns type ((uuid, info) ∷ servers) b (first, rest) =
      let (c, e) = consider-returns type uuid info b first in
      let (r, e') = balance-returns type servers c rest in (r, rw e e')

  -- Where no server of the type says that it takes 0 connections, the choice returns. The ratio that it
  -- has come to is not above that of any server of the type, and either is the first, 1.1, and no server
  -- is named, or is below 1.1 and that of the server of the type that is named.
  pub get_server_load_balance-least :
      (type : ℕ) (servers : List (List ℕ × RemoteServerInfo))
      → Ordered f
      → All (HasCapacity type) servers
      → (b : Best D) × (get_server_load_balance type servers ≡ ok b.uuid)
        × All (NotAbove type b.ratio) servers
        × (((b.uuid ≡ []) × (b.ratio ≡ f.first_ratio))
            ⊎ ((f.greater f.first_ratio b.ratio ≡ true) × Any (IsChoice type b) servers))
  unfolding get_server_load_balance Chosen
  get_server_load_balance-least type servers o h =
      let start : Best D = record { ratio = f.first_ratio; uuid = [] } in
      let (r, e) = balance-returns type servers start h in
      let (lowest, from) = balance-Chosen type servers start r o e in
      (
        r,
        rw e,
        lowest,
        elim from [
          | inl same ↦ inl (ap (λ b. b.uuid) same, ap (λ b. b.ratio) same)
          | inr chosen ↦ inr chosen
        ],
      )
