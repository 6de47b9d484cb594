-- ===== src/Memory/Paging/Entry.antt =====
-- The fields of a page directory entry, kernel/src/memory/paging.h, do not disturb each other.
use lensor_os.Prelude.{
  ℕ, ◌%◌, ◌^◌, ◌≡◌, ◌∙◌, refl, ◌<◌, All, Bool, true, false, List, [], ◌∷◌, arith,
}
use lensor_os.Memory.Paging.{
  PageTableFlag, present, read_write, user_super, write_through, cache_disabled, accessed, dirty,
  larger_pages, global, copy_on_write, nx, entry_address, set_address, flag, or_flag_if, set_flag,
  passed_flags, or_flags, set_flags,
}

pub address-set_address :
    (a value : ℕ) → a % 2 ^ 12 ≡ 0 → a < 2 ^ 52 → entry_address (set_address a value) ≡ a
unfolding entry_address set_address
address-set_address a value h l = omega arith

address-or_flag_if :
    (f : PageTableFlag) (b : Bool) (value : ℕ)
    → entry_address (or_flag_if f b value) ≡ entry_address value
unfolding entry_address or_flag_if flag
address-or_flag_if present b value = ground arith
address-or_flag_if read_write b value = ground arith
address-or_flag_if user_super b value = ground arith
address-or_flag_if write_through b value = ground arith
address-or_flag_if cache_disabled b value = ground arith
address-or_flag_if accessed b value = ground arith
address-or_flag_if dirty b value = ground arith
address-or_flag_if larger_pages b value = ground arith
address-or_flag_if global b value = ground arith
address-or_flag_if copy_on_write b value = ground arith
address-or_flag_if nx b value = ground arith

pub address-set_flag :
    (f : PageTableFlag) (b : Bool) (value : ℕ)
    → entry_address (set_flag f b value) ≡ entry_address value
unfolding entry_address set_flag flag
address-set_flag present b value = ground arith
address-set_flag read_write b value = ground arith
address-set_flag user_super b value = ground arith
address-set_flag write_through b value = ground arith
address-set_flag cache_disabled b value = ground arith
address-set_flag accessed b value = ground arith
address-set_flag dirty b value = ground arith
address-set_flag larger_pages b value = ground arith
address-set_flag global b value = ground arith
address-set_flag copy_on_write b value = ground arith
address-set_flag nx b value = ground arith

pub address-or_flags :
    (fs : List PageTableFlag) (m value : ℕ)
    → entry_address (or_flags fs m value) ≡ entry_address value
unfolding or_flags
address-or_flags [] m value = refl
address-or_flags (f ∷ fs) m value =
    address-or_flags fs m (or_flag_if f (flag f m) value) ∙ address-or_flag_if f (flag f m) value

pub address-set_flags :
    (fs : List PageTableFlag) (m value : ℕ)
    → entry_address (set_flags fs m value) ≡ entry_address value
unfolding set_flags
address-set_flags [] m value = refl
address-set_flags (f ∷ fs) m value =
    address-set_flags fs m (set_flag f (flag f m) value) ∙ address-set_flag f (flag f m) value

-- An entry that is present stays so when flags are added.
present-or_flag_if :
    (f : PageTableFlag) (b : Bool) (value : ℕ)
    → flag present value ≡ true
    → flag present (or_flag_if f b value) ≡ true
unfolding or_flag_if flag
present-or_flag_if present b value h = ground arith
present-or_flag_if read_write b value h = ground arith
present-or_flag_if user_super b value h = ground arith
present-or_flag_if write_through b value h = ground arith
present-or_flag_if cache_disabled b value h = ground arith
present-or_flag_if accessed b value h = ground arith
present-or_flag_if dirty b value h = ground arith
present-or_flag_if larger_pages b value h = ground arith
present-or_flag_if global b value h = ground arith
present-or_flag_if copy_on_write b value h = ground arith
present-or_flag_if nx b value h = ground arith

present-or_flags :
    (fs : List PageTableFlag) (m value : ℕ)
    → flag present value ≡ true
    → flag present (or_flags fs m value) ≡ true
unfolding or_flags
present-or_flags [] m value h = h
present-or_flags (f ∷ fs) m value h =
    present-or_flags fs m (or_flag_if f (flag f m) value) (present-or_flag_if f (flag f m) value h)

-- The flags that `map` passes on after the first.
abbrev later_flags : List PageTableFlag
later_flags =
    read_write ∷ user_super ∷ write_through ∷ cache_disabled ∷ accessed ∷ dirty ∷ larger_pages
    ∷ global ∷ []

present_added : (value : ℕ) → flag present (or_flag_if present true value) ≡ true
unfolding or_flag_if flag
present_added value = ground arith

pub present-or_passed :
    (m value : ℕ) → flag present m ≡ true → flag present (or_flags passed_flags m value) ≡ true
unfolding or_flags
present-or_passed m value h =
    present-or_flags later_flags m (or_flag_if present (flag present m) value)
      (rw h (present_added value))

-- A flag that is set or reset concerns no flag but itself.
pub present-set_flag : (b : Bool) (value : ℕ) → flag present (set_flag present b value) ≡ b
unfolding set_flag flag
present-set_flag true value = ground arith
present-set_flag false value = ground arith

other : PageTableFlag → Bool
other present = false
other _ = true

present-set_other :
    (f : PageTableFlag) (b : Bool) (value : ℕ)
    → other f ≡ true
    → flag present (set_flag f b value) ≡ flag present value
unfolding set_flag flag other
present-set_other present b value h = cc
present-set_other read_write b value h = ground arith
present-set_other user_super b value h = ground arith
present-set_other write_through b value h = ground arith
present-set_other cache_disabled b value h = ground arith
present-set_other accessed b value h = ground arith
present-set_other dirty b value h = ground arith
present-set_other larger_pages b value h = ground arith
present-set_other global b value h = ground arith
present-set_other copy_on_write b value h = ground arith
present-set_other nx b value h = ground arith

present-set_flags :
    (fs : List PageTableFlag) (m value : ℕ)
    → All (λ f. other f ≡ true) fs
    → flag present (set_flags fs m value) ≡ flag present value
unfolding set_flags
present-set_flags [] m value h = refl
present-set_flags (f ∷ fs) m value (h, hs) =
    present-set_flags fs m (set_flag f (flag f m) value) hs ∙ present-set_other f (flag f m) value h

pub present-set_passed :
    (m value : ℕ) → flag present (set_flags passed_flags m value) ≡ flag present m
unfolding set_flags other
present-set_passed m value =
    present-set_flags later_flags m (set_flag present (flag present m) value)
      (refl, (refl, (refl, (refl, (refl, (refl, (refl, (refl, tt))))))))
    ∙ present-set_flag (flag present m) value
