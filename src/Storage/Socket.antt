-- ===== src/Storage/Socket.antt =====
-- Sockets, kernel/src/storage/filesystem_drivers/socket.h and socket.cpp. `SocketData` and
-- `SocketBuffers` live at addresses; a `none` there is memory that has been deleted, and a call that
-- reads it has no result. The only socket type is LENSOR.
pub mod Bindings
pub mod Connection
pub mod Lifetime
mod Examples
use lensor_os.Prelude.{
  ℕ, ◌+◌, ◌-◌, Bool, true, false, ◌&&◌, not, Option, none, some, List, [], ◌∷◌, ◌++◌, if◌then◌else◌,
  ◌==◌,
}
use lensor_os.Prelude.Words.{add64, sub64, minus_one}
use lensor_os.Event.Queue.{update}
use lensor_os.Process.Table.{Table}
use lensor_os.Storage.Pipe.{Outcome, moved, failed, retry}
use lensor_os.Storage.Fifo
use lensor_os.Storage.Fifo.{FifoBuffer}

-- `SOCKET_TX_BUFFER_SIZE` and `SOCKET_RX_BUFFER_SIZE`.
abbrev pub tx_size : ℕ
tx_size = 2048

abbrev pub rx_size : ℕ
rx_size = 2040

pub record SocketBuffers : Type 0 where
  pub tx : FifoBuffer
  pub rx : FifoBuffer
  pub ref_count : ℕ

abbrev pub new_buffers : SocketBuffers
new_buffers = record { tx = Fifo.clear tx_size; rx = Fifo.clear rx_size; ref_count = 1 }

-- The bytes of an unbound address mean nothing.
pub data SocketAddress : Type 0 where
  unbound : SocketAddress
  lensor16 : List ℕ → SocketAddress

-- `memcmp(…) == 0` of two pieces of the same size.
unfoldable pub same_bytes : List ℕ → List ℕ → Bool
same_bytes [] [] = true
same_bytes [] (y ∷ ys) = false
same_bytes (x ∷ xs) [] = false
same_bytes (x ∷ xs) (y ∷ ys) = x == y && same_bytes xs ys

-- `SocketAddress::operator==`
unfoldable pub same_address : SocketAddress → SocketAddress → Bool
same_address unbound unbound = true
same_address unbound (lensor16 b) = false
same_address (lensor16 a) unbound = false
same_address (lensor16 a) (lensor16 b) = same_bytes a b

pub record SocketConnection : Type 0 where
  pub address : SocketAddress
  pub socket : ℕ
  pub pid : ℕ

pub data ClientServer : Type 0 where
  client : ClientServer
  server : ClientServer

pub record SocketData : Type 0 where
  pub pid : ℕ
  pub fd : ℕ
  pub address : SocketAddress
  pub waiting_on_connection : Bool
  pub connection_queue : List SocketConnection
  pub client_server : ClientServer
  pub buffers : Option ℕ

pub record SocketBinding : Type 0 where
  pub address : SocketAddress
  pub socket : ℕ

pub record SocketDriver : Type 0 where
  pub sockets : ℕ → Option SocketData
  pub buffers : ℕ → Option SocketBuffers
  pub bindings : List SocketBinding

-- `std::find_if(…, binding == address)`
unfoldable pub find_binding : SocketAddress → List SocketBinding → Option ℕ
find_binding address [] = none
find_binding address (b ∷ bs) =
    if same_address b.address address then some b.socket else find_binding address bs

-- `get_bound_socket`
unfoldable pub get_bound_socket : SocketAddress → SocketDriver → Option ℕ
get_bound_socket address d = find_binding address d.bindings

abbrev pub is_some {ℓ} : {A : Type ℓ} → Option A → Bool
is_some none = false
is_some (some _) = true

-- `bind` of the socket `entry`, which lives at `sock`: whether it is bound now.
unfoldable pub bind : ℕ → SocketData → SocketAddress → SocketDriver → Bool × SocketDriver
bind sock entry address d = if is_some (find_binding address d.bindings) then (false, d) else (
  true,
  record d {
    sockets = update d.sockets sock (some (record entry { address = address }));
    bindings = d.bindings ++ (record { address = address; socket = sock } ∷ []);
  },
)

-- `std::erase_if(Bindings, …)`
unfoldable pub erase_bindings : SocketAddress → List SocketBinding → List SocketBinding
erase_bindings address [] = []
erase_bindings address (b ∷ bs) =
    if same_address b.address address
    then erase_bindings address bs
    else b ∷ erase_bindings address bs

unfoldable pub unbind : SocketAddress → SocketDriver → Bool × SocketDriver
unbind address d = (
  is_some (find_binding address d.bindings),
  record d { bindings = erase_bindings address d.bindings },
)

-- A new socket of a process.
abbrev pub new_socket : ℕ → Option ℕ → SocketData
new_socket pid buffers = record {
  pid = pid;
  fd = minus_one;
  address = unbound;
  waiting_on_connection = false;
  connection_queue = [];
  client_server = client;
  buffers = buffers;
}

abbrev pub store : ℕ → SocketData → SocketDriver → SocketDriver
store sock s d = record d { sockets = update d.sockets sock (some s) }

abbrev pub store_buffers : ℕ → SocketBuffers → SocketDriver → SocketDriver
store_buffers a b d = record d { buffers = update d.buffers a (some b) }

-- `open`, at the address that `new` chooses: a socket of the process that is scheduled.
unfoldable pub open_socket : ℕ → ℕ → SocketDriver → SocketDriver
open_socket fresh pid d = store fresh (new_socket pid none) d

-- `socket`: `open`, and new buffers at the address that `new` chooses for them.
unfoldable pub socket : ℕ → ℕ → ℕ → SocketDriver → SocketDriver
unfolding open_socket
socket fresh fresh_buffers pid d =
    store fresh (new_socket pid (some fresh_buffers))
      (store_buffers fresh_buffers new_buffers (open_socket fresh pid d))

-- What `read` and `write` return and leave.
pub record Result : Type 0 where
  pub outcome : Outcome
  pub out : List ℕ
  pub driver : SocketDriver
  pub table : Table

abbrev pub failure : SocketDriver → Table → Result
failure d t = record { outcome = failed; out = []; driver = d; table = t }

-- The buffer that a side reads from: the client from TX, the server from RX.
unfoldable pub read_side : ClientServer → ℕ → ℕ → ℕ → SocketBuffers → SocketDriver → Table → Result
read_side client a pid n b d t =
    let r = Fifo.read pid n b.tx t in
    record {
      outcome = r.outcome;
      out = r.out;
      driver = store_buffers a (record b { tx = r.fifo }) d;
      table = r.table;
    }
read_side server a pid n b d t =
    let r = Fifo.read pid n b.rx t in
    record {
      outcome = r.outcome;
      out = r.out;
      driver = store_buffers a (record b { rx = r.fifo }) d;
      table = r.table;
    }

-- The buffer that a side writes to: the client to RX, the server to TX.
unfoldable pub write_side :
    ClientServer → ℕ → ℕ → ℕ → List ℕ → SocketBuffers → SocketDriver → Table → Result
write_side client a pid n buffer b d t =
    let r = Fifo.write rx_size pid n buffer b.rx t in
    record {
      outcome = r.outcome;
      out = r.out;
      driver = store_buffers a (record b { rx = r.fifo }) d;
      table = r.table;
    }
write_side server a pid n buffer b d t =
    let r = Fifo.write tx_size pid n buffer b.tx t in
    record {
      outcome = r.outcome;
      out = r.out;
      driver = store_buffers a (record b { tx = r.fifo }) d;
      table = r.table;
    }

-- The buffers that a socket points to: `some none` for a null pointer, `none` for deleted memory.
unfoldable pub buffers_of : SocketData → SocketDriver → Option (Option (ℕ × SocketBuffers))
buffers_of s d = elim s.buffers [
  | none ↦ some none
  | some a ↦ elim (d.buffers a) [ none ↦ none | some b ↦ some (some (a, b)) ]
]

-- `SocketDriver::read` of the socket at `sock`, the driver data of open metadata.
unfoldable pub read : ℕ → ℕ → ℕ → SocketDriver → Table → Option Result
read sock pid n d t = elim (d.sockets sock) [
  | none ↦ none
  | some s ↦ elim (buffers_of s d) [
    | none ↦ none
    | some none ↦ some (failure d t)
    | some (some (a, b)) ↦ some (read_side s.client_server a pid n b d t)
  ]
]

-- `SocketDriver::write`.
unfoldable pub write : ℕ → ℕ → ℕ → List ℕ → SocketDriver → Table → Option Result
write sock pid n buffer d t = elim (d.sockets sock) [
  | none ↦ none
  | some s ↦ elim (buffers_of s d) [
    | none ↦ none
    | some none ↦ some (failure d t)
    | some (some (a, b)) ↦ some (write_side s.client_server a pid n buffer b d t)
  ]
]

-- The deletion of a socket, or of buffers.
abbrev pub delete_socket : ℕ → SocketDriver → SocketDriver
delete_socket sock d = record d { sockets = update d.sockets sock none }

abbrev pub delete_buffers : ℕ → SocketDriver → SocketDriver
delete_buffers a d = record d { buffers = update d.buffers a none }

-- The last user of the buffers unbinds the address of its socket, if it has one.
unfoldable pub unbind_last : SocketAddress → SocketDriver → SocketDriver
unbind_last unbound d = d
unbind_last (lensor16 b) d = (unbind (lensor16 b) d).1

-- `SocketDriver::close`
unfoldable pub close : ℕ → SocketDriver → Option SocketDriver
close sock d = elim (d.sockets sock) [
  | none ↦ none
  | some s ↦ elim (buffers_of s d) [
    | none ↦ none
    | some none ↦ some (delete_socket sock d)
    | some (some (a, b)) ↦
        let left = sub64 b.ref_count 1 in
        some (
          delete_socket sock (
            if left == 0
            then delete_buffers a (unbind_last s.address d)
            else store_buffers a (record b { ref_count = left }) d))
  ]
]
