-- ===== src/Layout/Weights.antt =====
-- model.go, `splitWeightsForInsertion`: weights are uint32.
pub mod Bounds
use project_ariadne.Base.{
  ℕ, zero, suc, ◌+◌, ◌*◌, ◌/◌, ◌%◌, ◌^◌, max, Bool, List, [], ◌∷◌, map, leb, all, if◌then◌else◌,
}

abbrev pub max_uint32 : ℕ
max_uint32 = 4294967295

-- `weight <= math.MaxUint32/2` for every weight.
unfoldable pub can_double : List ℕ → Bool
unfolding all
can_double weights = all (λ w. leb w (max_uint32 / 2)) weights

-- `max(1, (weight+1)/2)`; the sum wraps.
unfoldable pub halve_weight : ℕ → ℕ
halve_weight weight = max 1 ((weight + 1) % 2 ^ 32 / 2)

-- The loop that halves until every weight can be doubled; the first argument bounds its rounds.
unfoldable pub normalize : ℕ → List ℕ → List ℕ
unfolding can_double halve_weight
normalize zero weights = weights
normalize (suc rounds) weights =
    let halved = normalize rounds (map halve_weight weights) in
    if can_double weights then weights else halved

abbrev pub double_weight : ℕ → ℕ
double_weight weight = weight * 2 % 2 ^ 32

-- Doubles every weight but the one at `index`, which is written twice. An index past the end
-- panics in the source; here it adds no weight.
unfoldable pub spread : List ℕ → ℕ → List ℕ
spread [] index = []
spread (w ∷ ws) zero = w ∷ w ∷ map double_weight ws
spread (w ∷ ws) (suc index) = double_weight w ∷ spread ws index

-- One round of halving is enough for uint32 weights, so two rounds of fuel are never used up.
abbrev pub normalize_rounds : ℕ
normalize_rounds = 2

unfoldable pub split_weights_for_insertion : List ℕ → ℕ → List ℕ
unfolding normalize spread
split_weights_for_insertion weights index = spread (normalize normalize_rounds weights) index
