-- ===== src/Storage/Socket/Bindings.antt =====
-- The bindings are a map from addresses to sockets that never binds one address twice.
use lensor_os.Prelude.{
  ℕ, ◌≡◌, ◌≢◌, ◌↔◌, refl, ap, ap₂, true, false, none, some, List, [], ◌∷◌, ◌++◌, arith,
  if◌then◌else◌, false≢true, Bool-cases, Option-cases, inl, inr, ◌∙◌, sym, subst, ◌⊎◌,
}
use lensor_os.Storage.Socket.{
  SocketAddress, unbound, lensor16, same_bytes, same_address, SocketData, SocketBinding,
  SocketDriver, find_binding, get_bound_socket, bind, erase_bindings, unbind,
}

same_bytes_iff : (xs ys : List ℕ) → (same_bytes xs ys ≡ true) ↔ (xs ≡ ys)
unfolding same_bytes
same_bytes_iff [] [] = (λ h. refl, λ h. refl)
same_bytes_iff [] (y ∷ ys) = (λ h. cc, λ h. cc)
same_bytes_iff (x ∷ xs) [] = (λ h. cc, λ h. cc)
same_bytes_iff (x ∷ xs) (y ∷ ys) =
    let ih = same_bytes_iff xs ys in
    (
      λ h. ap₂ (λ z zs. z ∷ zs) (ground arith) (ih.0 (ground arith)),
      λ h. let e : x ≡ y = cc in let e' : xs ≡ ys = cc in ground (arith, ih.1 e'),
    )

-- Two addresses compare equal exactly when they are the same.
pub same_address_iff : (a b : SocketAddress) → (same_address a b ≡ true) ↔ (a ≡ b)
unfolding same_address
same_address_iff unbound unbound = (λ h. refl, λ h. refl)
same_address_iff unbound (lensor16 b) = (λ h. cc, λ h. cc)
same_address_iff (lensor16 a) unbound = (λ h. cc, λ h. cc)
same_address_iff (lensor16 a) (lensor16 b) =
    (λ h. ap lensor16 ((same_bytes_iff a b).0 h), λ h. (same_bytes_iff a b).1 cc)

pub same_address_same : (a : SocketAddress) → same_address a a ≡ true
same_address_same a = (same_address_iff a a).1 refl

same_address_ne : (a b : SocketAddress) → a ≢ b → same_address a b ≡ false
same_address_ne a b ne = elim (Bool-cases (same_address a b)) [
  | inl e ↦ absurd (ne ((same_address_iff a b).0 e))
  | inr e ↦ e
]

differ : (a b : SocketAddress) → a ≡ b → same_address a b ≢ false
differ a b e f = false≢true (sym f ∙ (same_address_iff a b).1 e)

find_binding-append_self :
    (address : SocketAddress) (sock : ℕ) (bs : List SocketBinding)
    → find_binding address bs ≡ none
    → find_binding address (bs ++ (record { address = address; socket = sock } ∷ [])) ≡ some sock
unfolding find_binding
find_binding-append_self address sock [] h = ground (arith, same_address_same address)
find_binding-append_self address sock (b ∷ bs) h =
    ground (arith, find_binding-append_self address sock bs)

find_binding-append_ne :
    (address other : SocketAddress) (sock : ℕ) (bs : List SocketBinding)
    → address ≢ other
    → find_binding other (bs ++ (record { address = address; socket = sock } ∷ []))
      ≡ find_binding other bs
unfolding find_binding
find_binding-append_ne address other sock [] ne = ground (arith, same_address_ne address other ne)
find_binding-append_ne address other sock (b ∷ bs) ne =
    ground (arith, find_binding-append_ne address other sock bs ne)

find_binding-erase_self :
    (address : SocketAddress) (bs : List SocketBinding)
    → find_binding address (erase_bindings address bs) ≡ none
unfolding find_binding erase_bindings
find_binding-erase_self address [] = refl
find_binding-erase_self address (b ∷ bs) = ground (arith, find_binding-erase_self address bs)

find_binding-erase_ne :
    (address other : SocketAddress) (bs : List SocketBinding)
    → address ≢ other
    → find_binding other (erase_bindings address bs) ≡ find_binding other bs
unfolding find_binding erase_bindings
find_binding-erase_ne address other [] ne = refl
find_binding-erase_ne address other (b ∷ bs) ne =
    elim (Bool-cases (same_address b.address address)) [
      | inl e ↦
          let e' = (same_address_iff b.address address).0 e in
          let ne' : same_address b.address other ≡ false =
            same_address_ne b.address other (λ f. ne (sym e' ∙ f)) in
          ground (arith, find_binding-erase_ne address other bs ne)
      | inr e ↦ ground (arith, find_binding-erase_ne address other bs ne)
    ]

find_binding-append :
    (address other : SocketAddress) (sock : ℕ) (bs : List SocketBinding)
    → find_binding address bs ≡ none
    → find_binding other (bs ++ (record { address = address; socket = sock } ∷ []))
      ≡ (if same_address address other then some sock else find_binding other bs)
find_binding-append address other sock bs h = elim (Bool-cases (same_address address other)) [
  | inl e ↦
      subst
        (λ o.
          find_binding o (bs ++ (record { address = address; socket = sock } ∷ []))
          ≡ (if same_address address o then some sock else find_binding o bs))
        ((same_address_iff address other).0 e)
        (find_binding-append_self address sock bs h
          ∙ ap (λ b. if b then some sock else find_binding address bs)
              (sym (same_address_same address)))
  | inr e ↦
      find_binding-append_ne address other sock bs (λ f. differ address other f e)
      ∙ ap (λ b. if b then some sock else find_binding other bs) (sym e)
]

find_binding-erase :
    (address other : SocketAddress) (bs : List SocketBinding)
    → find_binding other (erase_bindings address bs)
      ≡ (if same_address address other then none else find_binding other bs)
find_binding-erase address other bs = elim (Bool-cases (same_address address other)) [
  | inl e ↦
      subst (λ o. find_binding o (erase_bindings address bs) ≡ none)
        ((same_address_iff address other).0 e) (find_binding-erase_self address bs)
      ∙ ap (λ b. if b then none else find_binding other bs) (sym e)
  | inr e ↦
      find_binding-erase_ne address other bs (λ f. differ address other f e)
      ∙ ap (λ b. if b then none else find_binding other bs) (sym e)
]

-- An address that is bound is not bound again, and nothing changes; one that is not is bound to the
-- socket from then on, and every other address to what it was.
pub bind-get_bound_socket :
    (sock : ℕ) (entry : SocketData) (address : SocketAddress) (d : SocketDriver)
    → let (done, d') = bind sock entry address d in
      ((s : ℕ) × (get_bound_socket address d ≡ some s) × (done ≡ false) × (d' ≡ d))
      ⊎ ((get_bound_socket address d ≡ none)
          × (done ≡ true)
          × ((other : SocketAddress)
              → get_bound_socket other d'
                ≡ (if same_address address other then some sock else get_bound_socket other d)))
unfolding bind get_bound_socket
bind-get_bound_socket sock entry address d = elim (Option-cases (find_binding address d.bindings)) [
  | inr (s, e) ↦ inl (s, e, ground arith, ground arith)
  | inl n ↦
      inr (n, ground arith, λ other. rw n (find_binding-append address other sock d.bindings n))
]

-- After `unbind` the address is bound to nothing, and every other address to what it was; it
-- returns whether the address was bound.
pub unbind-get_bound_socket :
    (address : SocketAddress) (d : SocketDriver)
    → let (found, d') = unbind address d in
      ((found ≡ false) ↔ (get_bound_socket address d ≡ none))
      × ((other : SocketAddress)
          → get_bound_socket other d'
            ≡ (if same_address address other then none else get_bound_socket other d))
unfolding unbind get_bound_socket
unbind-get_bound_socket address d =
    (ground arith, λ other. find_binding-erase address other d.bindings)
