-- ===== src/Storage/Socket/Lifetime.antt =====
-- The buffers of a connection live until the last socket that uses them is closed.
use lensor_os.Prelude.{
  ℕ, ◌-◌, ◌≡◌, ◌≢◌, ◌<◌, refl, ap, Bool, true, false, ◌&&◌, none, some, arith, if◌then◌else◌, ◌==◌,
  Bool-cases, inl, inr, ◌∙◌,
}
use lensor_os.Prelude.Words.{sub64, u64_mod}
use lensor_os.Storage.Socket.{
  SocketBuffers, SocketAddress, unbound, lensor16, SocketData, SocketDriver, get_bound_socket,
  unbind, unbind_last, delete_socket, delete_buffers, store_buffers, buffers_of, close,
}
use lensor_os.Storage.Socket.Bindings.{same_address_same, unbind-get_bound_socket}

abbrev pub is_bound : SocketAddress → Bool
is_bound unbound = false
is_bound (lensor16 bytes) = true

-- What `close` leaves of the sockets, of the buffers and of the binding of the socket's address.
pub record Closed (d : SocketDriver) (sock a : ℕ) (s : SocketData) (b : SocketBuffers)
    (d' : SocketDriver) : Type 0 where
  pub sockets : (j : ℕ) → d'.sockets j ≡ (if j == sock then none else d.sockets j)
  pub buffers :
      (j : ℕ)
      → d'.buffers j ≡ (
          if j == a
          then (if b.ref_count == 1 then none else some (record b { ref_count = b.ref_count - 1 }))
          else d.buffers j)
  pub binding :
      get_bound_socket s.address d'
      ≡ (if b.ref_count == 1 && is_bound s.address then none else get_bound_socket s.address d)

close_equation :
    (sock a : ℕ) (s : SocketData) (b : SocketBuffers) (d : SocketDriver)
    → d.sockets sock ≡ some s
    → s.buffers ≡ some a
    → d.buffers a ≡ some b
    → close sock d ≡ (
        let left = sub64 b.ref_count 1 in
        some (
          delete_socket sock (
            if left == 0
            then delete_buffers a (unbind_last s.address d)
            else store_buffers a (record b { ref_count = left }) d)))
unfolding close buffers_of
close_equation sock a s b d h k l = ground arith

unbind_last-sockets :
    (address : SocketAddress) (d : SocketDriver) → (unbind_last address d).sockets ≡ d.sockets
unfolding unbind_last unbind
unbind_last-sockets unbound d = refl
unbind_last-sockets (lensor16 bytes) d = refl

unbind_last_releases :
    (address : SocketAddress) (d : SocketDriver)
    → get_bound_socket address (unbind_last address d)
      ≡ (if is_bound address then none else get_bound_socket address d)
unfolding unbind_last
unbind_last_releases unbound d = refl
unbind_last_releases (lensor16 bytes) d =
    (unbind-get_bound_socket (lensor16 bytes) d).1 (lensor16 bytes)
    ∙ ap (λ b. if b then none else get_bound_socket (lensor16 bytes) d)
        (same_address_same (lensor16 bytes))

unbind_last-buffers :
    (address : SocketAddress) (d : SocketDriver) → (unbind_last address d).buffers ≡ d.buffers
unfolding unbind_last unbind
unbind_last-buffers unbound d = refl
unbind_last-buffers (lensor16 bytes) d = refl

last-Closed :
    (sock a : ℕ) (s : SocketData) (b : SocketBuffers) (d : SocketDriver)
    → b.ref_count ≡ 1
    → Closed d sock a s b (delete_socket sock (delete_buffers a (unbind_last s.address d)))
unfolding get_bound_socket
last-Closed sock a s b d one = record {
  sockets = λ j. ground (arith, ap (λ f. f j) (unbind_last-sockets s.address d));
  buffers = λ j. ground (arith, ap (λ f. f j) (unbind_last-buffers s.address d));
  binding =
      let e : (b.ref_count == 1) ≡ true = ground arith in rw e (unbind_last_releases s.address d);
}

shared-Closed :
    (sock a : ℕ) (s : SocketData) (b : SocketBuffers) (d : SocketDriver)
    → b.ref_count ≢ 1
    → Closed d sock a s b
        (delete_socket sock (store_buffers a (record b { ref_count = b.ref_count - 1 }) d))
unfolding get_bound_socket
shared-Closed sock a s b d more = record {
  sockets = λ j. ground arith;
  buffers = λ j. ground arith;
  binding = let e : (b.ref_count == 1) ≡ false = ground arith in rw e refl;
}

-- `close` of a socket whose buffers count at least one user deletes the socket alone among the
-- sockets. The buffers stay with one user less, unless it was the last: then they are deleted, and
-- the address of the socket, if it has one, is bound no more.
pub close-Closed :
    (sock a : ℕ) (s : SocketData) (b : SocketBuffers) (d : SocketDriver)
    → d.sockets sock ≡ some s
    → s.buffers ≡ some a
    → d.buffers a ≡ some b
    → 0 < b.ref_count
    → b.ref_count < u64_mod
    → (d' : SocketDriver) × (close sock d ≡ some d') × Closed d sock a s b d'
close-Closed sock a s b d h k l positive small =
    let e = close_equation sock a s b d h k l in
    let left : sub64 b.ref_count 1 ≡ b.ref_count - 1 = omega arith in
    elim (Bool-cases (b.ref_count == 1)) [
      | inl one ↦
          let z : (sub64 b.ref_count 1 == 0) ≡ true = ground arith in
          (_, e ∙ rw z refl, last-Closed sock a s b d (ground arith))
      | inr more ↦
          let z : (sub64 b.ref_count 1 == 0) ≡ false = ground arith in
          (
            _,
            e
                ∙ rw z (
                    ap
                      (λ n.
                        some (delete_socket sock (store_buffers a (record b { ref_count = n }) d)))
                      left),
            shared-Closed sock a s b d (ground arith),
          )
    ]
