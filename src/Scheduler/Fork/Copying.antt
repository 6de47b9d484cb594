-- ===== src/Scheduler/Fork/Copying.antt =====
-- The state of the copy of the file descriptors between two rounds of its loop,
-- `CopyUserspaceProcess` of kernel/src/scheduler.cpp.
use lensor_os.Prelude.{
  ℕ, zero, suc, ◌+◌, ◌≡◌, ◌≢◌, ◌∙◌, refl, sym, ap, ◌≤◌, ◌<◌, true, false, Option, none, some, List,
  [], ◌∷◌, ◌++◌, arith, ltb, length, if◌then◌else◌, ◌==◌, Bool-cases, inl, inr,
}
use lensor_os.Containers.SparseVector.{at, push_back}
use lensor_os.Containers.SparseVector.Invariant.{IsValid, has, Distinct}
use lensor_os.Containers.SparseVector.Laws.{push_back_lem}
use lensor_os.Storage.VirtualFilesystem.{Vfs, file}
use lensor_os.Scheduler.Fork.{push_garbage}
use lensor_os.Scheduler.Fork.Garbage.{
  whole, push_back-whole, length-snoc, at-snoc, at_beyond, has-snoc, Distinct-snoc,
}

abbrev pub lead : Vfs → Option ℕ → Option ℕ
lead v none = none
lead v (some fd) = file v fd

-- What a descriptor leads to once the garbage is erased.
abbrev pub shown : Vfs → List (Option ℕ) → List ℕ → ℕ → Option ℕ
shown v els g j = if has j g then none else lead v (at (whole els) j)

-- The state of the copy when the descriptors below `i` have been met: `start` is the table of files
-- at the start, and `wanted` tells what a descriptor of the original leads to.
pub record Copying (start : Vfs) (wanted : ℕ → Option ℕ) (i : ℕ) (v : Vfs) (els : List (Option ℕ))
    (g : List ℕ) : Type 0 where
  pub size : length els ≤ i
  pub full : (j : ℕ) → j < length els → at (whole els) j ≢ none
  pub bounded : (j : ℕ) → has j g ≡ true → j < length els
  pub distinct : Distinct g
  pub opens : (j fd : ℕ) → at (whole els) j ≡ some fd → file v fd ≢ none
  pub unshared :
      (j k fd : ℕ)
      → has j g ≡ false
      → has k g ≡ false
      → at (whole els) j ≡ some fd
      → at (whole els) k ≡ some fd
      → j ≡ k
  pub agrees : (j : ℕ) → j < i → shown v els g j ≡ wanted j
  pub valid : IsValid v.files
  pub kept : (fd f : ℕ) → file start fd ≡ some f → file v fd ≡ some f

module _ (start : Vfs) (wanted : ℕ → Option ℕ) where
  garbage-Copying :
      (i s : ℕ) (v : Vfs) (els : List (Option ℕ)) (g : List ℕ)
      → Copying start wanted i v els g
      → length els < i
      → file v s ≢ none
      → Copying start wanted i v (els ++ (some s ∷ [])) (g ++ (length els ∷ []))
  garbage-Copying i s v els g c l o =
      let size = length-snoc els (some s) in
      record {
        size = omega (arith, size);
        full = λ j m. ground (arith, size, at-snoc els s j, c.full j);
        bounded = λ j m. ground (arith, size, has-snoc j (length els) g, c.bounded j);
        distinct = Distinct-snoc (length els) g c.distinct (ground (arith, c.bounded (length els)));
        opens = λ j fd e. ground (arith, at-snoc els s j, c.opens j fd);
        unshared = λ j k fd a b r r'. ground (
          arith,
          at-snoc els s j,
          at-snoc els s k,
          has-snoc j (length els) g,
          has-snoc k (length els) g,
          c.unshared j k fd,
        );
        agrees = λ j m. ground (
          arith,
          at-snoc els s j,
          has-snoc j (length els) g,
          c.agrees j m,
          at_beyond els j,
          c.bounded j,
        );
        valid = c.valid;
        kept = c.kept;
      }

  pub filled-Copying :
      (n i s k : ℕ) (v : Vfs) (els : List (Option ℕ)) (g : List ℕ)
      → Copying start wanted i v els g
      → file v s ≢ none
      → length els + k ≡ i
      → k ≤ n
      → (els' : List (Option ℕ)) × (g' : List ℕ) × (push_garbage n i s (whole els) g
          ≡ (whole els', g'))
        × (length els' ≡ i)
        × Copying start wanted i v els' g'
  unfolding push_garbage
  filled-Copying zero i s k v els g c o e l = (els, g, refl, omega arith, c)
  filled-Copying (suc n) i s zero v els g c o e l =
      let done : ltb (length els) i ≡ false = ground arith in
      (els, g, rw (push_garbage, done) refl, omega arith, c)
  filled-Copying (suc n) i s (suc k) v els g c o e l =
      let more : ltb (length els) i ≡ true = ground arith in
      let size = length-snoc els (some s) in
      let (els', g', pushed, whole_size, c') =
        filled-Copying n i s k v (els ++ (some s ∷ [])) (g ++ (length els ∷ []))
          (garbage-Copying i s v els g c (omega arith) o) o (omega (arith, size)) (omega arith) in
      (els', g', rw (push_garbage, push_back-whole els s, more) pushed, whole_size, c')

  -- A file that is added changes nothing for a descriptor of an open file.
  lead-added :
      (f : ℕ) (v : Vfs) (r : Option ℕ)
      → IsValid v.files
      → ((fd : ℕ) → r ≡ some fd → file v fd ≢ none)
      → lead (record v { files = (push_back (some f) v.files).2 }) r ≡ lead v r
  unfolding file
  lead-added f v none h o = refl
  lead-added f v (some s) h o =
      let (_, added) = push_back_lem v.files f h in
      ground (arith, added.reads s, added.vacant, o s refl)

  pub added-Copying :
      (i f : ℕ) (v : Vfs) (els : List (Option ℕ)) (g : List ℕ)
      → Copying start wanted i v els g
      → length els ≡ i
      → wanted i ≡ some f
      → let (fd, _, files) = push_back (some f) v.files in
        Copying start wanted (i + 1) (record v { files = files }) (els ++ (some fd ∷ [])) g
  unfolding file
  added-Copying i f v els g c e w =
      let (_, added) = push_back_lem v.files f c.valid in
      let fd = (push_back (some f) v.files).0 in
      let size = length-snoc els (some fd) in
      let keeps : (s a : ℕ) → file v s ≡ some a → at (push_back (some f) v.files).2 s ≡ some a =
        λ s a r. ground (arith, added.reads s, added.vacant) in
      record {
        size = omega (arith, size);
        full = λ j m. ground (arith, size, at-snoc els fd j, c.full j);
        bounded = λ j m. ground (arith, size, c.bounded j);
        distinct = c.distinct;
        opens = λ j s r. ground (arith, at-snoc els fd j, added.reads s, c.opens j s);
        unshared = λ j k s a b r r'. ground (
          arith,
          at-snoc els fd j,
          at-snoc els fd k,
          added.vacant,
          c.opens j s,
          c.opens k s,
          c.unshared j k s,
        );
        agrees = λ j m. elim (Bool-cases (j == i)) [
          | inl here ↦
              let here' : j ≡ i = ground arith in
              let clean : has j g ≡ false = ground (arith, c.bounded j) in
              let new : length els == j ≡ true = ground arith in
              let self : fd == fd ≡ true = ground arith in
              rw (clean, at-snoc els fd j, new)
                (added.reads fd ∙ rw self (sym w ∙ ap wanted (sym here')))
          | inr there ↦
              let old : length els == j ≡ false = ground arith in
              rw
                (
                  at-snoc els fd j,
                  old,
                  lead-added f v (at (whole els) j) c.valid (λ s r. c.opens j s r),
                )
                (c.agrees j (ground arith))
        ];
        valid = added.valid;
        kept = λ s a r. keeps s a (c.kept s a r);
      }

  pub skipped-Copying :
      (i : ℕ) (v : Vfs) (els : List (Option ℕ)) (g : List ℕ)
      → Copying start wanted i v els g
      → wanted i ≡ none
      → Copying start wanted (i + 1) v els g
  skipped-Copying i v els g c w =
      let past = at_beyond els i c.size in
      record {
        size = ground (arith, c.size);
        full = c.full;
        bounded = c.bounded;
        distinct = c.distinct;
        opens = c.opens;
        unshared = c.unshared;
        agrees = λ j m. ground (arith, c.agrees j, c.bounded j, c.size, past);
        valid = c.valid;
        kept = c.kept;
      }
