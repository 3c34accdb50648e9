-- ===== src/Core/Attentions/Eviction.antt =====
-- operations.go, `evictAttentions`: the bound on the entries and the choice of the ones to go.
use project_ariadne.Base.{
  get_elem?, ℕ, zero, suc, ◌+◌, ◌≡◌, ◌≤◌, ◌<◌, refl, subst, true, false, Option, none, some, List,
  [], ◌∷◌, ◌==◌, nat_eq, Dict, values, get, delete, has, length, leb, All, Bool-cases, inl, inr,
  is_some, if◌then◌else◌, arith,
}
use project_ariadne.Model.Attention.{Attention}
use project_ariadne.State.Defs.{State}
use project_ariadne.Core.Attentions.{
  evicted_before, select_evicted, without_attention, evict_chosen, evict_rounds, evict_attentions,
}

-- Every entry is stored under its own ID.
abbrev pub AreKeyed : Dict ℕ Attention → Type 0
AreKeyed entries = All (λ (e : ℕ × Attention). e.0 ≡ e.1.id) entries

AreKeyed-delete : (id : ℕ) (m : Dict ℕ Attention) → AreKeyed m → AreKeyed (delete id m)
unfolding delete
AreKeyed-delete id [] h = tt
AreKeyed-delete id ((k, a) ∷ m) (p, h) =
    elim (k == id) as (λ b. AreKeyed (if b then delete id m else (k, a) ∷ delete id m)) [
      | true ↦ AreKeyed-delete id m h
      | false ↦ (p, AreKeyed-delete id m h)
    ]

length-delete_le : (id : ℕ) (m : Dict ℕ Attention) → length (delete id m) ≤ length m
unfolding delete
length-delete_le id [] = ground arith
length-delete_le id ((k, a) ∷ m) = ground (arith, length-delete_le id m)

length-delete : (id : ℕ) (m : Dict ℕ Attention) → has id m ≡ true → length (delete id m) < length m
unfolding delete get
length-delete id [] h = ground arith
length-delete id ((k, a) ∷ m) h = ground (arith, length-delete id m, length-delete_le id m)

-- The chosen entry is one of the entries.
select_evicted-All :
    (P : Attention → Type 0) (selected : Attention) (entries : List Attention) (x : Attention)
    → select_evicted (some selected) entries ≡ some x
    → P selected
    → All P entries
    → P x
unfolding select_evicted
select_evicted-All P selected [] x e p h = subst P (ground (arith, e)) p
select_evicted-All P selected (a ∷ entries) x e p (q, h) =
    (elim (evicted_before selected a)
        as (λ b. select_evicted (some (if b then a else selected)) entries ≡ some x → P x) [
          | true ↦ λ e'. select_evicted-All P a entries x e' q h
          | false ↦ λ e'. select_evicted-All P selected entries x e' p h
        ])
      e

-- The entries of a table are found in it.
has_later :
    (k id : ℕ) (a : Attention) (m : Dict ℕ Attention) → has id m ≡ true → has id ((k, a) ∷ m) ≡ true
unfolding get
has_later k id a m h = ground (arith, h)

has_first : (k : ℕ) (a : Attention) (m : Dict ℕ Attention) → k ≡ a.id → has a.id ((k, a) ∷ m) ≡ true
unfolding get
has_first k a m h = ground (arith, h)

found_from :
    (m part : Dict ℕ Attention)
    → AreKeyed part
    → ((id : ℕ) → has id part ≡ true → has id m ≡ true)
    → All (λ (a : Attention). has a.id m ≡ true) (values part)
unfolding values
found_from m [] h f = tt
found_from m ((k, a) ∷ part) (p, h) f =
    (f a.id (has_first k a part p), found_from m part h (λ id e. f id (has_later k id a part e)))

chosen_is_found :
    (m : Dict ℕ Attention) (entries : List Attention) (x : Attention)
    → All (λ (a : Attention). has a.id m ≡ true) entries
    → select_evicted none entries ≡ some x
    → has x.id m ≡ true
unfolding select_evicted
chosen_is_found m [] x h e = ground arith
chosen_is_found m (a ∷ entries) x (q, h) e =
    select_evicted-All (λ (b : Attention). has b.id m ≡ true) a entries x e q h

-- Where nothing is chosen there is nothing.
chosen_if_any :
    (selected : Attention) (entries : List Attention)
    → is_some (select_evicted (some selected) entries) ≡ true
unfolding select_evicted
chosen_if_any selected [] = refl
chosen_if_any selected (a ∷ entries) =
    chosen_if_any (if evicted_before selected a then a else selected) entries

none_chosen : (m : Dict ℕ Attention) → select_evicted none (values m) ≡ none → length m ≡ 0
unfolding select_evicted values
none_chosen [] e = refl
none_chosen ((k, a) ∷ m) e = ground (arith, chosen_if_any a (values m), e)

evict_chosen-bound :
    (limit : ℕ) (s : State) (rest : Attention → State × List Attention) (chosen : Option Attention)
    → (chosen ≡ none → length s.attentions ≤ limit)
    → ((a : Attention) → chosen ≡ some a → length (rest a).0.attentions ≤ limit)
    → length (evict_chosen limit s rest chosen).0.attentions ≤ limit
evict_chosen-bound limit s rest none empty more = empty refl
evict_chosen-bound limit s rest (some a) empty more =
    elim (Bool-cases (leb (length s.attentions) limit)) [
      | inl p ↦ rw p (ground (arith, p))
      | inr p ↦ rw p (more a refl)
    ]

evict_rounds-bound :
    (rounds limit : ℕ) (s : State)
    → AreKeyed s.attentions
    → length s.attentions ≤ rounds + limit
    → length (evict_rounds rounds limit s).0.attentions ≤ limit
unfolding evict_rounds without_attention
evict_rounds-bound zero limit s keyed h = omega (arith, h)
evict_rounds-bound (suc rounds) limit s keyed h =
    evict_chosen-bound limit s (λ a. evict_rounds rounds limit (without_attention a s))
      (select_evicted none (values s.attentions)) (λ e. ground (arith, none_chosen s.attentions e))
      (λ a e.
        evict_rounds-bound rounds limit (without_attention a s)
          (AreKeyed-delete a.id s.attentions keyed)
          (omega (
            arith,
            h,
            length-delete a.id s.attentions (
                chosen_is_found s.attentions (values s.attentions) a
                  (found_from s.attentions s.attentions keyed (λ id e'. e')) e),
          )))

-- If every attention is stored under its own ID, evicting leaves at most as many as the limit
-- allows; the rounds of the model always suffice for this.
pub evict_attentions-bound :
    (limit : ℕ) (s : State)
    → AreKeyed s.attentions
    → length (evict_attentions limit s).0.attentions ≤ limit
unfolding evict_attentions
evict_attentions-bound limit s keyed =
    evict_rounds-bound (length s.attentions) limit s keyed (omega arith)

-- The order in which entries are to be evicted.
evicted_before-transfer :
    (x c a : Attention)
    → evicted_before x c ≡ true
    → evicted_before x a ≡ false
    → evicted_before c a ≡ false
unfolding evicted_before
evicted_before-transfer x c a h k = ground (arith, h, k)

evicted_before_irreflexive : (a : Attention) → evicted_before a a ≡ false
unfolding evicted_before
evicted_before_irreflexive a = ground arith

-- What the selection is not later than, the choice is not later than.
chosen_not_later :
    (selected : Attention) (entries : List Attention) (x b : Attention)
    → select_evicted (some selected) entries ≡ some x
    → evicted_before selected b ≡ false
    → evicted_before x b ≡ false
unfolding select_evicted
chosen_not_later selected [] x b e h = ground (arith, e, h)
chosen_not_later selected (a ∷ entries) x b e h = elim (Bool-cases (evicted_before selected a)) [
  | inl p ↦
      chosen_not_later a entries x b (ground (arith, p, e))
        (evicted_before-transfer selected a b p h)
  | inr p ↦ chosen_not_later selected entries x b (ground (arith, p, e)) h
]

later_entries :
    (selected : Attention) (entries : List Attention) (x : Attention)
    → select_evicted (some selected) entries ≡ some x
    → All (λ (a : Attention). evicted_before x a ≡ false) entries
unfolding select_evicted
later_entries selected [] x e = tt
later_entries selected (a ∷ entries) x e = elim (Bool-cases (evicted_before selected a)) [
  | inl p ↦
      let e' : select_evicted (some a) entries ≡ some x = ground (arith, p, e) in
      (
        chosen_not_later a entries x a e' (evicted_before_irreflexive a),
        later_entries a entries x e',
      )
  | inr p ↦
      let e' : select_evicted (some selected) entries ≡ some x = ground (arith, p, e) in
      (chosen_not_later selected entries x a e' p, later_entries selected entries x e')
]

-- Of two entries the first is not to go after the second: it is acknowledged if the second is, and if
-- both are or both are not, it is older, or as old and with an ID that is not greater.
abbrev pub GoesFirst : Attention → Attention → Type 0
GoesFirst x a =
    (is_some a.acknowledged_at ≡ true → is_some x.acknowledged_at ≡ true)
    × (is_some a.acknowledged_at ≡ is_some x.acknowledged_at
        → (x.updated_at ≤ a.updated_at) × (x.updated_at ≡ a.updated_at → x.id ≤ a.id))

evicted_before-GoesFirst : (x a : Attention) → evicted_before x a ≡ false → GoesFirst x a
unfolding evicted_before
evicted_before-GoesFirst x a h =
    ((λ k. ground (arith, h, k)), (λ k. (ground (arith, h, k), (λ e. ground (arith, h, k, e)))))

All-GoesFirst :
    (x : Attention) (entries : List Attention)
    → All (λ (a : Attention). evicted_before x a ≡ false) entries
    → All (GoesFirst x) entries
All-GoesFirst x [] h = tt
All-GoesFirst x (a ∷ entries) (h, rest) =
    (evicted_before-GoesFirst x a h, All-GoesFirst x entries rest)

-- One of the entries.
abbrev pub IsAmong : Attention → List Attention → Type 0
IsAmong x entries = (i : ℕ) × (get_elem? entries i ≡ some x)

abbrev pub Chosen : List Attention → Option Attention → Type 0
Chosen entries none = entries ≡ []
Chosen entries (some x) = IsAmong x entries × All (GoesFirst x) entries

IsAmong-later :
    (b : Attention) (entries xs : List Attention)
    → All (λ (a : Attention). IsAmong a entries) xs
    → All (λ (a : Attention). IsAmong a (b ∷ entries)) xs
IsAmong-later b entries [] h = tt
IsAmong-later b entries (x ∷ xs) ((i, e), rest) = ((suc i, e), IsAmong-later b entries xs rest)

IsAmong-all : (entries : List Attention) → All (λ (a : Attention). IsAmong a entries) entries
IsAmong-all [] = tt
IsAmong-all (a ∷ entries) = ((0, refl), IsAmong-later a entries entries (IsAmong-all entries))

from_first :
    (a : Attention) (entries : List Attention) (chosen : Option Attention)
    → select_evicted (some a) entries ≡ chosen
    → Chosen (a ∷ entries) chosen
from_first a entries none e = ground (arith, chosen_if_any a entries, e)
from_first a entries (some x) e = (
  select_evicted-All (λ (b : Attention). IsAmong b (a ∷ entries)) a entries x e (0, refl)
      (IsAmong-later a entries entries (IsAmong-all entries)),
  All-GoesFirst x (a ∷ entries) (
    chosen_not_later a entries x a e (evicted_before_irreflexive a),
    later_entries a entries x e,
  ),
)

-- The loop over the entries chooses one of them, unless there is none: an acknowledged one if any is,
-- and of those that are acknowledged alike one that was updated longest ago, and of those the one with
-- the smallest ID.
pub select_evicted_lem : (entries : List Attention) → Chosen entries (select_evicted none entries)
unfolding select_evicted
select_evicted_lem [] = refl
select_evicted_lem (a ∷ entries) = from_first a entries (select_evicted (some a) entries) refl
