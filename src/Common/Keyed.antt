-- ===== src/Common/Keyed.antt =====
-- std::unordered_map as an association list: `find`, `emplace`, an assignment through `operator[]`
-- and `erase`, over keys whose equality is an instance, and what each does to the function that the
-- map stands for. The order of the entries is one that the library could have chosen.
use mathlib.Core.Path.{◌≡◌, refl, ap, ◌∙◌}
use mathlib.Core.Logic.{◌↔◌, inl, inr}
use mathlib.Core.Bool.{Bool, true, false, ◌&&◌}
use mathlib.Core.Option.{Option, none, some}
use mathlib.Core.List.{List, [], ◌∷◌}
use Prim.Native.Nat.{ℕ}
use native.Mathlib.Omega.{arith}
use ue4team_project_server.Common.Tests.{◌==◌, ==_iff, if◌then◌else◌, Bool-cases}

-- Equality of keys, as operator== of the key type.
pub record KeyEq {ℓ} (K : Type ℓ) : Type ℓ where
  pub same : K → K → Bool
  pub same_iff : (j k : K) → (same j k ≡ true) ↔ (j ≡ k)

unfoldable pub same_text : List ℕ → List ℕ → Bool
same_text [] [] = true
same_text [] (c ∷ t) = false
same_text (b ∷ s) [] = false
same_text (b ∷ s) (c ∷ t) = b == c && same_text s t

same_text_sound : (s t : List ℕ) → same_text s t ≡ true → s ≡ t
unfolding same_text
same_text_sound [] [] e = refl
same_text_sound [] (c ∷ t) e = absurd cc
same_text_sound (b ∷ s) [] e = absurd cc
same_text_sound (b ∷ s) (c ∷ t) e = ground (arith, same_text_sound s t)

pub same_text_refl : (s : List ℕ) → same_text s s ≡ true
unfolding same_text
same_text_refl [] = refl
same_text_refl (b ∷ s) = ground (arith, same_text_refl s)

pub same_text_iff : (s t : List ℕ) → (same_text s t ≡ true) ↔ (s ≡ t)
same_text_iff s t = (same_text_sound s t, λ e. rw e (same_text_refl t))

-- The keys of the sources' maps: texts, and numbers.
instance abbrev pub text_keys : KeyEq (List ℕ)
text_keys = record { same = same_text; same_iff = same_text_iff }

instance abbrev pub number_keys : KeyEq ℕ
number_keys = record { same = ◌==◌; same_iff = ==_iff }

pub same_refl {ℓ} : {K : Type ℓ} ⦃e : KeyEq K⦄ (k : K) → e.same k k ≡ true
same_refl ⦃e⦄ k = (e.same_iff k k).1 refl

abbrev pub or_else {ℓ} : {V : Type ℓ} → Option V → V → V
or_else none v = v
or_else (some w) v = w

module _ {ℓ κ} {K : Type ℓ} {V : Type κ} ⦃e : KeyEq K⦄ where
  unfoldable pub find : K → List (K × V) → Option V
  find k [] = none
  find k ((j, v) ∷ m) = if e.same j k then some v else find k m

  -- An entry that is there is kept.
  unfoldable pub emplace : K → V → List (K × V) → List (K × V)
  emplace k v [] = (k, v) ∷ []
  emplace k v ((j, w) ∷ m) = if e.same j k then (j, w) ∷ m else (j, w) ∷ emplace k v m

  -- An entry that is there is replaced.
  unfoldable pub assign : K → V → List (K × V) → List (K × V)
  assign k v [] = (k, v) ∷ []
  assign k v ((j, w) ∷ m) = if e.same j k then (j, v) ∷ m else (j, w) ∷ assign k v m

  unfoldable pub erase : K → List (K × V) → List (K × V)
  erase k [] = []
  erase k ((j, w) ∷ m) = if e.same j k then erase k m else (j, w) ∷ erase k m

  -- The same operations on the function that a map stands for.
  abbrev pub set_if_new : K → V → (K → Option V) → K → Option V
  set_if_new k v f j = if e.same k j then some (or_else (f k) v) else f j

  abbrev pub set_at : K → V → (K → Option V) → K → Option V
  set_at k v f j = if e.same k j then some v else f j

  abbrev pub unset : K → (K → Option V) → K → Option V
  unset k f j = if e.same k j then none else f j

module _ {ℓ κ} {K : Type ℓ} {V : Type κ} ⦃e : KeyEq K⦄ where
  pub find-emplace :
      (k : K) (v : V) (m : List (K × V)) (j : K)
      → find j (emplace k v m) ≡ set_if_new k v (λ i. find i m) j
  unfolding find emplace
  find-emplace k v [] j = refl
  find-emplace k v ((i, w) ∷ m) j =
      ground (arith, e.same_iff k j, e.same_iff i k, e.same_iff i j, find-emplace k v m j)

  pub find-assign :
      (k : K) (v : V) (m : List (K × V)) (j : K)
      → find j (assign k v m) ≡ set_at k v (λ i. find i m) j
  unfolding find assign
  find-assign k v [] j = refl
  find-assign k v ((i, w) ∷ m) j =
      ground (arith, e.same_iff k j, e.same_iff i k, e.same_iff i j, find-assign k v m j)

  pub find-erase :
      (k : K) (m : List (K × V)) (j : K) → find j (erase k m) ≡ unset k (λ i. find i m) j
  unfolding find erase
  find-erase k [] j = ground arith
  find-erase k ((i, w) ∷ m) j =
      ground (arith, e.same_iff k j, e.same_iff i k, e.same_iff i j, find-erase k m j)

  -- Adding or writing what is there.
  pub emplace_known : (k : K) (v w : V) (m : List (K × V)) → find k m ≡ some w → emplace k v m ≡ m
  unfolding find emplace
  emplace_known k v w [] h = absurd cc
  emplace_known k v w ((j, u) ∷ m) h = elim (Bool-cases (e.same j k)) [
    | inl s ↦ rw s
    | inr o ↦ rw o (ap (◌∷◌ (j, u)) (emplace_known k v w m (rw o at h)))
  ]

  pub assign-assign :
      (k : K) (v w : V) (m : List (K × V)) → assign k w (assign k v m) ≡ assign k w m
  unfolding assign
  assign-assign k v w [] = rw (same_refl k)
  assign-assign k v w ((j, u) ∷ m) = elim (Bool-cases (e.same j k)) [
    | inl s ↦ rw (s, s)
    | inr o ↦ rw (o, o) (ap (◌∷◌ (j, u)) (assign-assign k v w m))
  ]

  pub assign_known : (k : K) (v : V) (m : List (K × V)) → find k m ≡ some v → assign k v m ≡ m
  unfolding find assign
  assign_known k v [] h = absurd cc
  assign_known k v ((j, u) ∷ m) h = elim (Bool-cases (e.same j k)) [
    | inl s ↦ let same : some u ≡ some v = rw s at h in rw s (ground (arith, same))
    | inr o ↦ rw o (ap (◌∷◌ (j, u)) (assign_known k v m (rw o at h)))
  ]

  pub find-assign_self : (k : K) (v : V) (m : List (K × V)) → find k (assign k v m) ≡ some v
  find-assign_self k v m = find-assign k v m k ∙ rw (same_refl k)
