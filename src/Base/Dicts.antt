-- ===== src/Base/Dicts.antt =====
-- Go maps as association lists. A later entry of a key is shadowed by an earlier one; `put` replaces
-- in place, so a map built by `put` holds each key once.
use mathlib.Core.Path.{◌≡◌, subst}
use mathlib.Core.Bool.{Bool, true, false}
use mathlib.Core.List.{List, [], ◌∷◌}
use mathlib.Core.Logic.{inl, inr}
use mathlib.Core.Option.{Option, none, some}
use native.Mathlib.Omega.{arith}
use project_ariadne.Base.Lists.{All}
use project_ariadne.Base.Tests.{Bool-cases, Eq, ◌==◌, if◌then◌else◌, is_some}

abbrev pub Dict {ℓ} : Type ℓ → Type ℓ → Type ℓ
Dict K V = List (K × V)

module _ {ℓ} {K V : Type ℓ} where
  -- The keys and the values, in the order of the entries.
  unfoldable pub keys : Dict K V → List K
  keys [] = []
  keys ((k, v) ∷ m) = k ∷ keys m

  unfoldable pub values : Dict K V → List V
  values [] = []
  values ((k, v) ∷ m) = v ∷ values m

module _ {ℓ} {K V : Type ℓ} ⦃e : Eq K⦄ where
  unfoldable pub get : K → Dict K V → Option V
  get k [] = none
  get k ((j, v) ∷ m) = if j == k then some v else get k m

  unfoldable pub put : K → V → Dict K V → Dict K V
  put k v [] = (k, v) ∷ []
  put k v ((j, w) ∷ m) = if j == k then (k, v) ∷ m else (j, w) ∷ put k v m

  unfoldable pub delete : K → Dict K V → Dict K V
  delete k [] = []
  delete k ((j, v) ∷ m) = let rest = delete k m in if j == k then rest else (j, v) ∷ rest

  pub get-put :
      (k j : K) (v : V) (m : Dict K V) → get j (put k v m) ≡ (if k == j then some v else get j m)
  unfolding get put
  get-put k j v [] = ground arith
  get-put k j v ((i, w) ∷ m) =
      ground (arith, get-put k j v m, e.beq_iff i k, e.beq_iff i j, e.beq_iff k j)

  pub get-delete :
      (k j : K) (m : Dict K V) → get j (delete k m) ≡ (if k == j then none else get j m)
  unfolding get delete
  get-delete k j [] = ground arith
  get-delete k j ((i, w) ∷ m) =
      ground (arith, get-delete k j m, e.beq_iff i k, e.beq_iff i j, e.beq_iff k j)

  abbrev pub has : K → Dict K V → Bool
  has k m = is_some (get k m)

pub ruleset dict_laws = (get-put, get-delete)

module _ {ℓ} {K V : Type ℓ} ⦃e : Eq K⦄ where
  -- A read of a missing key gives the zero value.
  abbrev pub get_or : K → V → Dict K V → V
  get_or k zero m = elim (get k m) [ none ↦ zero | some v ↦ v ]

  -- The values of those of the listed keys that the map has, in the order of the list.
  unfoldable pub get_all : List K → Dict K V → List V
  get_all [] m = []
  get_all (k ∷ ks) m = elim (get k m) [ none ↦ get_all ks m | some v ↦ v ∷ get_all ks m ]

  -- What holds of every value.
  pub All-put {κ} :
      (P : V → Type κ) (k : K) (v : V) (m : Dict K V)
      → All P (values m)
      → P v
      → All P (values (put k v m))
  unfolding put values
  All-put P k v [] h p = (p, tt)
  All-put P k v ((j, w) ∷ m) (q, h) p =
      elim (j == k) as (λ b. All P (values (if b then (k, v) ∷ m else (j, w) ∷ put k v m))) [
        | true ↦ (p, h)
        | false ↦ (q, All-put P k v m h p)
      ]

  pub All-delete {κ} :
      (P : V → Type κ) (k : K) (m : Dict K V) → All P (values m) → All P (values (delete k m))
  unfolding delete values
  All-delete P k [] h = tt
  All-delete P k ((j, w) ∷ m) (q, h) =
      elim (j == k) as (λ b. All P (values (if b then delete k m else (j, w) ∷ delete k m))) [
        | true ↦ All-delete P k m h
        | false ↦ (q, All-delete P k m h)
      ]

  pub All-get {κ} :
      (P : V → Type κ) (k : K) (v : V) (m : Dict K V) → All P (values m) → get k m ≡ some v → P v
  unfolding get values
  All-get P k v [] h e = ground arith
  All-get P k v ((j, w) ∷ m) (q, h) e =
      (elim (j == k) as (λ b. (if b then some w else get k m) ≡ some v → P v) [
        | true ↦ λ e'. subst P (ground (arith, e')) q
        | false ↦ λ e'. All-get P k v m h e'
      ])
        e

  -- What holds of every entry.
  pub All-put_entry {κ} :
      (P : K × V → Type κ) (k : K) (v : V) (m : Dict K V) → All P m → P (k, v) → All P (put k v m)
  unfolding put
  All-put_entry P k v [] h p = (p, tt)
  All-put_entry P k v ((j, w) ∷ m) (q, h) p =
      elim (j == k) as (λ b. All P (if b then (k, v) ∷ m else (j, w) ∷ put k v m)) [
        | true ↦ (p, h)
        | false ↦ (q, All-put_entry P k v m h p)
      ]

  pub All-delete_entry {κ} :
      (P : K × V → Type κ) (k : K) (m : Dict K V) → All P m → All P (delete k m)
  unfolding delete
  All-delete_entry P k [] h = tt
  All-delete_entry P k ((j, w) ∷ m) (q, h) =
      elim (j == k) as (λ b. All P (if b then delete k m else (j, w) ∷ delete k m)) [
        | true ↦ All-delete_entry P k m h
        | false ↦ (q, All-delete_entry P k m h)
      ]

  pub All-get_entry {κ} :
      (P : K × V → Type κ) (k : K) (v : V) (m : Dict K V) → All P m → get k m ≡ some v → P (k, v)
  unfolding get
  All-get_entry P k v [] h e = ground arith
  All-get_entry P k v ((j, w) ∷ m) (q, h) g = elim (Bool-cases (j == k)) [
    | inl p ↦ subst P (ground (arith, g, p, (e.beq_iff j k).0 p)) q
    | inr p ↦ All-get_entry P k v m h (ground (arith, g, p))
  ]
