-- ===== src/Layout/Weights/Bounds.antt =====
-- The loop of `splitWeightsForInsertion` ends, and no doubling wraps.
use project_ariadne.Base.{
  ℕ, zero, suc, ◌+◌, ◌*◌, ◌/◌, ◌≤◌, ◌<◌, ◌≡◌, refl, ap, ◌∙◌, true, some, List, [], ◌∷◌, map, arith,
  All, all, length, Bool-cases, inl, inr, get_elem?, sum,
}
use project_ariadne.Layout.Weights.{
  max_uint32, can_double, halve_weight, normalize, normalize_rounds, double_weight, spread,
  split_weights_for_insertion,
}

-- A weight that a valid split can hold.
abbrev pub IsWeight : ℕ → Type 0
IsWeight w = (1 ≤ w) × (w ≤ max_uint32)

-- A weight whose double fits.
abbrev pub IsSmall : ℕ → Type 0
IsSmall w = (1 ≤ w) × (w ≤ 2147483647)

halve_weight-IsSmall : (w : ℕ) → IsWeight w → IsSmall (halve_weight w)
unfolding halve_weight
halve_weight-IsSmall w h = (omega arith, omega arith)

halved-IsSmall : (ws : List ℕ) → All IsWeight ws → All IsSmall (map halve_weight ws)
halved-IsSmall [] h = tt
halved-IsSmall (w ∷ ws) h = (halve_weight-IsSmall w h.0, halved-IsSmall ws h.1)

small_can_double : (ws : List ℕ) → All IsSmall ws → can_double ws ≡ true
unfolding can_double all
small_can_double [] h = refl
small_can_double (w ∷ ws) h = ground (arith, small_can_double ws h.1)

can_double-IsSmall : (ws : List ℕ) → All IsWeight ws → can_double ws ≡ true → All IsSmall ws
unfolding can_double all
can_double-IsSmall [] h d = tt
can_double-IsSmall (w ∷ ws) h d = ground (arith, can_double-IsSmall ws h.1)

-- From the first round on the loop has ended by its own test.
normalize-IsSmall :
    (rounds : ℕ) (ws : List ℕ) → All IsWeight ws → All IsSmall (normalize (suc rounds) ws)
unfolding normalize
normalize-IsSmall zero ws h = elim (Bool-cases (can_double ws)) [
  | inl small ↦ rw small (can_double-IsSmall ws h small)
  | inr large ↦ rw large (halved-IsSmall ws h)
]
normalize-IsSmall (suc rounds) ws h = elim (Bool-cases (can_double ws)) [
  | inl small ↦ rw small (can_double-IsSmall ws h small)
  | inr large ↦
      rw (large, small_can_double (map halve_weight ws) (halved-IsSmall ws h)) (halved-IsSmall ws h)
]

length-map : (f : ℕ → ℕ) (ws : List ℕ) → length (map f ws) ≡ length ws
length-map f [] = refl
length-map f (w ∷ ws) = omega (arith, length-map f ws)

length-normalize : (rounds : ℕ) (ws : List ℕ) → length (normalize rounds ws) ≡ length ws
unfolding normalize
length-normalize zero ws = refl
length-normalize (suc rounds) ws =
    ground (arith, length-normalize rounds (map halve_weight ws), length-map halve_weight ws)

doubled_weights : (ws : List ℕ) → All IsSmall ws → All IsWeight (map double_weight ws)
doubled_weights [] h = tt
doubled_weights (w ∷ ws) h = ((omega arith, omega arith), doubled_weights ws h.1)

spread_weights : (ws : List ℕ) (index : ℕ) → All IsSmall ws → All IsWeight (spread ws index)
unfolding spread
spread_weights [] index h = tt
spread_weights (w ∷ ws) zero h =
    ((omega arith, omega arith), ((omega arith, omega arith), doubled_weights ws h.1))
spread_weights (w ∷ ws) (suc index) h = ((omega arith, omega arith), spread_weights ws index h.1)

length-spread :
    (ws : List ℕ) (index : ℕ) → index < length ws → length (spread ws index) ≡ suc (length ws)
unfolding spread
length-spread [] index h = elim h [ ]
length-spread (w ∷ ws) zero h = omega (arith, length-map double_weight ws)
length-spread (w ∷ ws) (suc index) h = omega (arith, length-spread ws index (omega arith))

sum-doubled : (ws : List ℕ) → All IsSmall ws → sum (map double_weight ws) ≡ 2 * sum ws
unfolding sum
sum-doubled [] h = refl
sum-doubled (w ∷ ws) h = omega (arith, sum-doubled ws h.1)

sum-spread :
    (ws : List ℕ) (index : ℕ)
    → All IsSmall ws
    → index < length ws
    → sum (spread ws index) ≡ 2 * sum ws
unfolding spread sum
sum-spread [] index h i = elim i [ ]
sum-spread (w ∷ ws) zero h i = omega (arith, sum-doubled ws h.1)
sum-spread (w ∷ ws) (suc index) h i = omega (arith, sum-spread ws index h.1 (omega arith))

-- For uint32 weights of at least 1 and an index among them: the loop ends within the fuel by its
-- own test, the result has one weight more, and every weight of it is again a uint32 of at least 1.
pub split_weights_for_insertion_bounds :
    (ws : List ℕ) (index : ℕ)
    → All IsWeight ws
    → index < length ws
    → (can_double (normalize normalize_rounds ws) ≡ true)
      × (length (split_weights_for_insertion ws index) ≡ suc (length ws))
      × All IsWeight (split_weights_for_insertion ws index)
unfolding split_weights_for_insertion
split_weights_for_insertion_bounds ws index h i =
    let small = normalize-IsSmall 1 ws h in
    let same = length-normalize 2 ws in
    (
      small_can_double (normalize 2 ws) small,
      length-spread (normalize 2 ws) index (omega arith) ∙ ap suc same,
      spread_weights (normalize 2 ws) index small,
    )

doubled_at :
    (ws : List ℕ) (j : ℕ) {w : ℕ}
    → All IsSmall ws
    → get_elem? ws j ≡ some w
    → get_elem? (map double_weight ws) j ≡ some (2 * w)
doubled_at [] j h e = cc
doubled_at (v ∷ ws) zero h e = ground arith
doubled_at (v ∷ ws) (suc j) h e = doubled_at ws j h.1 e

-- What stands in the widened weights for the weight `w` at position `j`.
abbrev pub Shares : List ℕ → ℕ → ℕ → ℕ → Type 0
Shares result index j w =
    (j ≡ index → (get_elem? result j ≡ some w) × (get_elem? result (suc j) ≡ some w))
    × (j < index → get_elem? result j ≡ some (2 * w))
    × (index < j → get_elem? result (suc j) ≡ some (2 * w))

spread-Shares :
    (ws : List ℕ) (index j : ℕ) (w : ℕ)
    → All IsSmall ws
    → get_elem? ws j ≡ some w
    → Shares (spread ws index) index j w
unfolding spread
spread-Shares [] index j w h e = cc
spread-Shares (v ∷ ws) zero zero w h e = (λ _. (e, e), λ l. elim l [ ], λ l. elim l [ ])
spread-Shares (v ∷ ws) zero (suc j) w h e =
    (λ f. absurd (omega arith), λ l. absurd (omega arith), λ l. doubled_at ws j h.1 e)
spread-Shares (v ∷ ws) (suc index) zero w h e =
    (λ f. absurd (omega arith), λ l. ground arith, λ l. absurd (omega arith))
spread-Shares (v ∷ ws) (suc index) (suc j) w h e =
    let ih = spread-Shares ws index j w h.1 e in
    (λ f. ih.0 (omega arith), λ l. ih.1 (omega arith), λ l. ih.2 (omega arith))

-- If the weights can all be doubled, the total is doubled exactly, every weight but the target's is
-- doubled, and the target and the new pane each have the target's old weight: no other pane's share
-- of the split changes.
pub split_weights-Shares :
    (ws : List ℕ) (index j : ℕ) (w : ℕ)
    → All IsWeight ws
    → can_double ws ≡ true
    → index < length ws
    → get_elem? ws j ≡ some w
    → (sum (split_weights_for_insertion ws index) ≡ 2 * sum ws)
      × Shares (split_weights_for_insertion ws index) index j w
unfolding split_weights_for_insertion normalize
split_weights-Shares ws index j w h d i e =
    let small = can_double-IsSmall ws h d in
    rw d (sum-spread ws index small i, spread-Shares ws index j w small e)

-- `weight+1` wraps at the greatest uint32, so halving makes the heaviest weight the
-- lightest, while it halves every other weight and rounds up.
pub halve_weight_wraps :
    (w : ℕ)
    → IsWeight w
    → (halve_weight max_uint32 ≤ halve_weight w)
      × (halve_weight max_uint32 ≡ 1)
      × (w < max_uint32 → halve_weight w ≡ (w + 1) / 2)
unfolding halve_weight
halve_weight_wraps w h = (omega arith, refl, λ l. omega arith)
