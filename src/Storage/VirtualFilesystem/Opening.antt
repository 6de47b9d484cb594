-- ===== src/Storage/VirtualFilesystem/Opening.antt =====
-- Which mount a path is opened on.
use lensor_os.Prelude.{
  ℕ, ◌≡◌, ◌<◌, ◌↔◌, ◌⊎◌, refl, ap, ap₂, true, false, none, some, List, [], ◌∷◌, ◌++◌, arith, length,
  drop, All, Bool-cases, Option-cases, inl, inr, ◌∙◌, sym, subst,
}
use lensor_os.Process.{Process}
use lensor_os.Storage.VirtualFilesystem.{
  MountPoint, Vfs, unchanged, starts_with, starts_with_slash, open_on, open_path, add_file,
}
use lensor_os.Storage.VirtualFilesystem.Tables.{IsSound, Opened, add_file-IsSound}

-- The mount does not open the path: it is elsewhere, or its driver refuses.
abbrev pub Passes : List ℕ → MountPoint → Type 0
Passes path m = (starts_with path m.path ≡ false) ⊎ (m.open_file (drop (length m.path) path) ≡ none)

-- The mount opens the path, and its driver gives the metadata `f`.
abbrev pub Opens : List ℕ → ℕ → MountPoint → Type 0
Opens path f m =
    (starts_with path m.path ≡ true) × (m.open_file (drop (length m.path) path) ≡ some f)

-- The first mount that opens the path gives `f`.
pub record First (path : List ℕ) (f : ℕ) (ms : List MountPoint) : Type 0 where
  pub before : List MountPoint
  pub mount : MountPoint
  pub after : List MountPoint
  pub split : ms ≡ before ++ (mount ∷ after)
  pub passed : All (Passes path) before
  pub opened : Opens path f mount

First-cons :
    (path : List ℕ) (f : ℕ) (m : MountPoint) (ms : List MountPoint)
    → Passes path m
    → First path f ms
    → First path f (m ∷ ms)
First-cons path f m ms h r = record {
  before = m ∷ r.before;
  mount = r.mount;
  after = r.after;
  split = ap (λ l. m ∷ l) r.split;
  passed = (h, r.passed);
  opened = r.opened;
}

open_on_step :
    (path : List ℕ) (m : MountPoint) (ms : List MountPoint)
    → Passes path m
    → open_on path (m ∷ ms) ≡ open_on path ms
unfolding open_on
open_on_step path m ms h = ground arith

open_on_here :
    (path : List ℕ) (f : ℕ) (m : MountPoint) (ms : List MountPoint)
    → Opens path f m
    → open_on path (m ∷ ms) ≡ some f
unfolding open_on
open_on_here path f m ms h = ground arith

mount-cases : (path : List ℕ) (m : MountPoint) → Passes path m ⊎ ((f : ℕ) × Opens path f m)
mount-cases path m = elim (Bool-cases (starts_with path m.path)) [
  | inl e ↦ elim (Option-cases (m.open_file (drop (length m.path) path))) [
    | inl n ↦ inl (inr n)
    | inr (f, o) ↦ inr (f, (e, o))
  ]
  | inr e ↦ inl (inl e)
]

open_on_lem :
    (path : List ℕ) (ms : List MountPoint)
    → ((open_on path ms ≡ none) × All (Passes path) ms)
      ⊎ ((f : ℕ) × (open_on path ms ≡ some f) × First path f ms)
unfolding open_on
open_on_lem path [] = inl (refl, tt)
open_on_lem path (m ∷ ms) = elim (mount-cases path m) [
  | inl h ↦ elim (open_on_lem path ms) [
    | inl (n, all) ↦ inl (open_on_step path m ms h ∙ n, (h, all))
    | inr (f, o, r) ↦ inr (f, open_on_step path m ms h ∙ o, First-cons path f m ms h r)
  ]
  | inr (f, o) ↦ inr (
    f,
    open_on_here path f m ms o,
    record { before = []; mount = m; after = ms; split = refl; passed = tt; opened = o },
  )
]

-- A prefix is what the rest of the path follows.
pub starts_with_iff :
    (path prefix : List ℕ)
    → (starts_with path prefix ≡ true) ↔ (path ≡ prefix ++ drop (length prefix) path)
unfolding starts_with
starts_with_iff path [] = (λ h. refl, λ h. refl)
starts_with_iff [] (c ∷ prefix) = (λ h. cc, λ h. cc)
starts_with_iff (b ∷ path) (c ∷ prefix) =
    let ih = starts_with_iff path prefix in
    (
      λ h. ap₂ (λ x l. x ∷ l) (ground arith) (ih.0 (ground arith)),
      λ h.
          let e : b ≡ c = cc in
          let t : path ≡ prefix ++ drop (length prefix) path = cc in ground (arith, ih.1 t),
    )

found :
    (path : List ℕ) (v : Vfs) (p : Process) (f : ℕ)
    → 1 < length path
    → starts_with_slash path ≡ true
    → open_on path v.mounts ≡ some f
    → open_path path v p ≡ add_file (some f) v p
unfolding open_path
found path v p f l h o = ground arith

-- In a sound state, `open` of an absolute path of at least two characters opens it on the first
-- mount whose prefix it has and whose driver finds the rest, and a descriptor that was free leads to
-- it; when every mount passes it returns no descriptor and changes nothing.
pub open_path-First :
    (path : List ℕ) (v : Vfs) (p : Process)
    → IsSound v p
    → 1 < length path
    → starts_with_slash path ≡ true
    → ((f : ℕ) × First path f v.mounts × Opened v p f (open_path path v p))
      ⊎ (All (Passes path) v.mounts × (open_path path v p ≡ (none, unchanged v p)))
unfolding open_path
open_path-First path v p s l h = elim (open_on_lem path v.mounts) [
  | inl (n, all) ↦ inr (all, ground arith)
  | inr (f, o, r) ↦
      inl (f, r, subst (Opened v p f) (sym (found path v p f l h o)) (add_file-IsSound v p f s).0)
]
