-- ===== src/Containers/SparseVector/Examples.antt =====
-- Runs of sparse vectors.
use lensor_os.Prelude.{ℕ, ◌≡◌, refl, true, none, some, [], ◌∷◌, arith}
use lensor_os.Containers.SparseVector.{SparseVector, empty, push_back, compact, scan, move_rounds}
use lensor_os.Containers.SparseVector.Invariant.{IsValid}
use lensor_os.Containers.SparseVector.Compact.{Compacted, compact-Compacted}
use lensor_os.Containers.SparseVector.Laws.{Inserted, push_back_lem}

abbrev one : SparseVector ℕ
one = (push_back (some 5) empty).2

empty_vector-IsValid : IsValid {A = ℕ} empty
empty_vector-IsValid = record {
  holes = λ i h. ground arith;
  listed = λ i h. ground arith;
  distinct = tt;
}

one-IsValid : IsValid one
one-IsValid = (push_back_lem empty 5 empty_vector-IsValid).1.valid

abbrev gappy : SparseVector ℕ
gappy = record { els = some 1 ∷ none ∷ none ∷ some 4 ∷ []; idxs = 2 ∷ 1 ∷ [] }

compact_moves_down :
    compact {A = ℕ} (record { els = some 1 ∷ none ∷ none ∷ some 4 ∷ []; idxs = 2 ∷ 1 ∷ [] })
    ≡ record { els = some 1 ∷ some 4 ∷ []; idxs = [] }
unfolding compact scan move_rounds
compact_moves_down = refl

compact-Compacted_example : Compacted gappy (compact gappy)
compact-Compacted_example = compact-Compacted gappy

push_back_lem_example :
    let (i, inserted, v') = push_back (some 6) one in (inserted ≡ true) × Inserted one 6 i v'
push_back_lem_example = push_back_lem one 6 one-IsValid
