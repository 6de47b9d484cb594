-- ===== src/Scheduler/Fork/Copied.antt =====
-- What the descriptors of a forked process lead to, `CopyUserspaceProcess` of
-- kernel/src/scheduler.cpp.
use lensor_os.Prelude.{
  ℕ, zero, suc, ◌+◌, ◌-◌, ◌≡◌, ◌≢◌, ◌∙◌, refl, sym, ap, subst, Option, none, some, List, [], ◌∷◌,
  ◌++◌, arith, ltb, length, get_elem?, if◌then◌else◌, Bool-cases, Option-cases, inl, inr,
}
use lensor_os.Containers.SparseVector
use lensor_os.Containers.SparseVector.{
  SparseVector, at, slot, flatten, push_back, pairs, pairs_from,
}
use lensor_os.Containers.SparseVector.Invariant.{IsValid, has, get_elem?_beyond}
use lensor_os.Process.{Process}
use lensor_os.Storage.VirtualFilesystem.{Vfs, file, file_of, procfd_to_fd, add_file}
use lensor_os.Storage.VirtualFilesystem.Tables.{IsSound}
use lensor_os.Scheduler.Fork.{push_garbage, copy_descriptors, erase_all, erase_garbage, copy_files}
use lensor_os.Scheduler.Fork.Garbage.{
  whole, push_back-whole, at_beyond, whole-IsValid, erase_all_lem,
}
use lensor_os.Scheduler.Fork.Copying.{
  lead, shown, Copying, filled-Copying, added-Copying, skipped-Copying,
}

abbrev child_with : Process → List (Option ℕ) → Process
child_with p els = record p { file_descriptors = whole els }

copy_descriptors-step :
    (s f n : ℕ) (rest : List (ℕ × ℕ)) (v : Vfs) (p : Process) (els els' : List (Option ℕ))
    (g g' : List ℕ)
    → file v s ≡ some f
    → push_garbage (zero + n) n s (whole els) g ≡ (whole els', g')
    → copy_descriptors ((n, s) ∷ rest) v (child_with p els) g ≡ (
        let (fd, _, files) = push_back (some f) v.files in
        copy_descriptors rest
          (record v { files = files })
          (child_with p (els' ++ (some fd ∷ [])))
          g')
unfolding copy_descriptors add_file
copy_descriptors-step s f n rest v p els els' g g' e pushed =
    rw (copy_descriptors, pushed, e, push_back-whole els' (push_back (some f) v.files).0) refl

module _ (start : Vfs) (wanted : ℕ → Option ℕ) where
  -- The copy of the descriptors from `i` on ends in a state that has met all of them.
  abbrev Reached : ℕ → List (Option ℕ) → Process → Vfs → List (Option ℕ) → List ℕ → Type 0
  Reached i rest p v els g =
      (v' : Vfs) × (els' : List (Option ℕ)) × (g' : List ℕ) × (copy_descriptors (pairs_from i rest)
          v (child_with p els) g
        ≡ (v', child_with p els', g'))
      × Copying start wanted (i + length rest) v' els' g'

  Reached-some :
      (s f i : ℕ) (rest : List (Option ℕ)) (p : Process) (v : Vfs) (els els' : List (Option ℕ))
      (g g' : List ℕ)
      → file v s ≡ some f
      → push_garbage (zero + i) i s (whole els) g ≡ (whole els', g')
      → let (fd, _, files) = push_back (some f) v.files in
        Reached (i + 1) rest p (record v { files = files }) (els' ++ (some fd ∷ [])) g'
        → Reached i (some s ∷ rest) p v els g
  unfolding pairs_from
  Reached-some s f i rest p v els els' g g' e pushed (v', ends, garbage, r, c) = (
    v',
    ends,
    garbage,
    copy_descriptors-step s f i (pairs_from (i + 1) rest) v p els els' g g' e pushed ∙ r,
    subst (λ n. Copying start wanted n v' ends garbage) (omega arith) c,
  )

  copied-Copying :
      (rest : List (Option ℕ)) (i : ℕ) (p : Process) (v : Vfs) (els : List (Option ℕ)) (g : List ℕ)
      → Copying start wanted i v els g
      → ((k : ℕ) → lead start (flatten (get_elem? rest k)) ≡ wanted (i + k))
      → ((k fd : ℕ) → flatten (get_elem? rest k) ≡ some fd → file start fd ≢ none)
      → Reached i rest p v els g
  unfolding copy_descriptors pairs_from
  copied-Copying [] i p v els g c wants opened =
      (v, els, g, refl, subst (λ n. Copying start wanted n v els g) (omega arith) c)
  copied-Copying (none ∷ rest) i p v els g c wants opened =
      let empty : wanted i ≡ none = ap wanted (omega arith) ∙ sym (wants 0) in
      let (v', els', g', e, c') =
        copied-Copying rest (i + 1) p v els g (skipped-Copying start wanted i v els g c empty)
          (λ k. wants (suc k) ∙ ap wanted (omega arith)) (λ k fd r. opened (suc k) fd r) in
      (v', els', g', e, subst (λ n. Copying start wanted n v' els' g') (omega arith) c')
  copied-Copying (some s ∷ rest) i p v els g c wants opened = elim (Option-cases (file start s)) [
    | inl e ↦ absurd (opened 0 s refl e)
    | inr (f, e) ↦
        let here = c.kept s f e in
        let full : wanted i ≡ some f = ap wanted (omega arith) ∙ sym (wants 0) ∙ e in
        let (els1, g1, pushed, size, c1) =
          filled-Copying start wanted (zero + i) i s (i - length els) v els g c
            (ground (arith, here)) (ground (arith, c.size)) (omega arith) in
        Reached-some s f i rest p v els els1 g g1 here pushed (
          copied-Copying rest (i + 1) p _ _ g1
            (added-Copying start wanted i f v els1 g1 c1 size full)
            (λ k. wants (suc k) ∙ ap wanted (omega arith)) (λ k fd r. opened (suc k) fd r))
  ]

-- What the copy of the descriptors has made of a new process `p` and of the table.
pub record Copied (v : Vfs) (original : Process) (p : Process) (v' : Vfs) (child : Process)
    : Type 0 where
  pub leads : (procfd : ℕ) → file_of v' child procfd ≡ file_of v original procfd
  pub keeps : (fd f : ℕ) → file v fd ≡ some f → file v' fd ≡ some f
  pub parent : IsSound v' original
  pub sound : IsSound v' child
  pub rest : child ≡ record p { file_descriptors = child.file_descriptors }

module _ (original : Process) (v : Vfs) (p : Process) where
  copied_shown :
      (v' : Vfs) (els : List (Option ℕ)) (g : List ℕ) (j : ℕ)
      → Copying v (file_of v original) (0 + length original.file_descriptors.els) v' els g
      → shown v' els g j ≡ file_of v original j
  unfolding file_of procfd_to_fd at
  copied_shown v' els g j c = elim (Bool-cases (ltb j (length original.file_descriptors.els))) [
    | inl below ↦ c.agrees j (ground arith)
    | inr past ↦ ground (
      arith,
      c.size,
      get_elem?_beyond els j,
      get_elem?_beyond original.file_descriptors.els j,
      c.bounded j,
    )
  ]

  -- Once the garbage is erased, the descriptors are those of the original.
  erased-Copied :
      (v' : Vfs) (els : List (Option ℕ)) (g : List ℕ) (d : SparseVector ℕ)
      → IsSound v original
      → Copying v (file_of v original) (0 + length original.file_descriptors.els) v' els g
      → ((j : ℕ) → at d j ≡ (if has j g then none else at (whole els) j))
      → IsValid d
      → Copied v original p v' (record p { file_descriptors = d })
  unfolding file_of procfd_to_fd
  erased-Copied v' els g d h c reads valid = record {
    leads = λ j. ground (arith, reads j, copied_shown v' els g j c);
    keeps = c.kept;
    parent = record {
      files = c.valid;
      descriptors = h.descriptors;
      opens = λ j fd e. elim (Option-cases (file v fd)) [
        | inl none_there ↦ absurd (h.opens j fd e none_there)
        | inr (f, there) ↦ ground (arith, c.kept fd f there)
      ];
      unshared = h.unshared;
    };
    sound = record {
      files = c.valid;
      descriptors = valid;
      opens = λ j fd e. ground (arith, reads j, c.opens j fd);
      unshared = λ i j fd e e'. ground (arith, reads i, reads j, c.unshared i j fd);
    };
    rest = refl;
  }

  copy_files-erased :
      (v' : Vfs) (els : List (Option ℕ)) (g : List ℕ) (d : SparseVector ℕ)
      → copy_descriptors (pairs original.file_descriptors) v (child_with p []) []
        ≡ (v', child_with p els, g)
      → erase_all g (whole els) ≡ some d
      → copy_files original v (child_with p []) ≡ some (v', record p { file_descriptors = d })
  unfolding copy_files erase_garbage
  copy_files-erased v' els g d e erased = ap erase_garbage e ∙ rw (erase_garbage, erased) refl

  nothing-Copying : IsSound v original → Copying v (file_of v original) 0 v [] []
  nothing-Copying h = record {
    size = omega arith;
    full = λ j m. ground arith;
    bounded = λ j m. ground arith;
    distinct = tt;
    opens = λ j fd e. ground (arith, at_beyond [] j);
    unshared = λ j k fd a b e e'. ground (arith, at_beyond [] j);
    agrees = λ j m. ground arith;
    valid = h.files;
    kept = λ fd f e. e;
  }

  -- When every descriptor of the original names an entry of its own of the table where a file is
  -- open, the copy to a new process completes: each descriptor of the child leads to the file that
  -- the same descriptor of the original leads to, holes included, every entry of the table is kept,
  -- both processes are sound, and nothing else of the child changes.
  pub copy_files-Copied :
      IsSound v original
      → (v' : Vfs) × (child : Process) × (copy_files original v
            (record p { file_descriptors = SparseVector.empty })
          ≡ some (v', child))
        × Copied v original p v' child
  unfolding pairs file_of procfd_to_fd at
  copy_files-Copied h =
      let els = original.file_descriptors.els in
      let (v', els', g, e, c) =
        copied-Copying v (file_of v original) els 0 p v [] [] (nothing-Copying h)
          (λ k. ap (λ j. lead v (flatten (get_elem? els j))) (omega arith))
          (λ k fd r. h.opens k fd r) in
      let (d, erased, reads, valid) =
        erase_all_lem g (whole els') (whole-IsValid els' c.full) c.distinct
          (λ j m. c.full j (c.bounded j m)) in
      (v', _, copy_files-erased v' els' g d e erased, erased-Copied v' els' g d h c reads valid)
