-- ===== src/Syscalls/Sockets.antt =====
-- `sys$20_listen`, `sys$21_connect` and `sys$22_accept`, kernel/src/interrupts/syscalls.cpp, from the
-- point where the arguments are known to be valid addresses and the descriptor is open: the socket
-- is the driver data of its metadata. A socket that has been deleted gives no result.
pub mod Alive
pub mod Accepting
mod Examples
use lensor_os.Prelude.{
  ℕ, zero, suc, ◌+◌, ◌-◌, ◌^◌, Bool, true, false, Option, none, some, List, [], ◌∷◌, ◌++◌,
  if◌then◌else◌,
}
use lensor_os.Prelude.Words.{add64, minus_one, minus_two}
use lensor_os.Event.EventType
use lensor_os.Event.Queue.{Event, Listeners, no_event}
use lensor_os.Process.{Process, sleeping, unblock, set_return_value}
use lensor_os.Process.Table.{Table, process, modify}
use lensor_os.Process.Notify.{notify}
use lensor_os.Storage.Socket.{
  SocketBuffers, SocketAddress, unbound, lensor16, SocketConnection, SocketData, ClientServer,
  client, server, SocketDriver, get_bound_socket, store, store_buffers, buffers_of,
}
use lensor_os.Storage.VirtualFilesystem.{Vfs, add_file}
use lensor_os.Syscalls.Files.{Answer, returned, yielded, int_minus_one}

pub record State : Type 0 where
  pub driver : SocketDriver
  pub listeners : Listeners
  pub vfs : Vfs
  pub table : Table

-- `listen`: a bound socket becomes a server.
unfoldable pub listen_at : ℕ → SocketData → SocketAddress → State → Answer × State
listen_at sock s unbound st = (returned int_minus_one, st)
listen_at sock s (lensor16 bytes) st =
    (returned 0, record st { driver = store sock (record s { client_server = server }) st.driver })

unfoldable pub listen : ℕ → State → Option (Answer × State)
listen sock st = elim (st.driver.sockets sock) [
  | none ↦ none
  | some s ↦ some (listen_at sock s s.address st)
]

-- The connection joins the queue of the server socket `sd`, at `to`; the server's process, of which
-- `connect` has made sure, is notified, and unblocked if the socket waits.
unfoldable pub enqueue : ℕ → SocketData → ℕ → SocketData → ℕ → State → State
enqueue sock s to sd this st =
    let connection : SocketConnection = record { address = s.address; socket = sock; pid = this } in
    let event : Event = record no_event { kind = EventType.ready_to_read; filter = sd.fd } in
    let (listeners, table) = notify event sd.pid st.listeners st.table in
    record st {
      driver =
          store to (record sd { connection_queue = sd.connection_queue ++ (connection ∷ []) })
            st.driver;
      listeners = listeners;
      table =
          if sd.waiting_on_connection then modify sd.pid (unblock true minus_two) table else table;
    }

unfoldable pub connect_to : ℕ → SocketData → ℕ → ℕ → State → Option (Answer × State)
connect_to sock s to this st = elim (st.driver.sockets to) [
  | none ↦ none
  | some sd ↦ elim (process st.table sd.pid) [
    | none ↦ some (returned int_minus_one, st)
    | some _ ↦ some (returned 0, enqueue sock s to sd this st)
  ]
]

-- `connect` by the process `this` of its socket `sock`.
unfoldable pub connect : ℕ → SocketAddress → ℕ → State → Option (Answer × State)
connect sock address this st = elim (st.driver.sockets sock) [
  | none ↦ none
  | some s ↦ elim s.client_server [
    | server ↦ some (returned int_minus_one, st)
    | client ↦ elim (get_bound_socket address st.driver) [
      | none ↦ some (returned int_minus_one, st)
      | some to ↦ connect_to sock s to this st
    ]
  ]
]

-- The reference that the copy of a client socket takes; a null pointer is followed all the same.
unfoldable pub retain : SocketData → SocketDriver → Option SocketDriver
retain s d = elim (buffers_of s d) [
  | none ↦ none
  | some none ↦ none
  | some (some (a, b)) ↦ some (store_buffers a (record b { ref_count = add64 b.ref_count 1 }) d)
]

-- The copy of the client socket, at the address `copy`, and its metadata, at `meta`, which gets a
-- descriptor in the process `p`.
unfoldable pub install : SocketData → ℕ → ℕ → ℕ → Process → State → SocketDriver → Answer × State
install s copy meta this p st d =
    let (fds, change) = add_file (some meta) st.vfs p in
    (
      elim fds [ none ↦ returned minus_one | some (procfd, fd) ↦ returned procfd ],
      record st {
        driver = store copy (record s { client_server = server }) d;
        vfs = change.vfs;
        table = modify this (λ _. change.process) st.table;
      },
    )

unfoldable pub adopt : SocketData → ℕ → ℕ → ℕ → Process → State → Option (Answer × State)
adopt s copy meta this p st = elim (retain s st.driver) [
  | none ↦ none
  | some d ↦ some (install s copy meta this p st d)
]

-- With a connection at the front: it leaves the queue, whatever comes of it.
unfoldable pub accept_from :
    ℕ → SocketData → List SocketConnection → ℕ → ℕ → ℕ → Process → State → Option (Answer × State)
accept_from sock s [] copy meta this p st = some (
  yielded,
  record st {
    driver = store sock (record s { waiting_on_connection = true }) st.driver;
    table = modify this (λ q. record (set_return_value minus_one q) { state = sleeping }) st.table;
  },
)
accept_from sock s (c ∷ rest) copy meta this p st =
    let st' : State = record st {
      driver = store sock (record s { connection_queue = rest }) st.driver;
    } in
    elim (st'.driver.sockets c.socket) [
      | none ↦ none
      | some peer ↦ elim (process st.table peer.pid) [
        | none ↦ some (returned minus_one, st')
        | some _ ↦ adopt peer copy meta this p st'
      ]
    ]

-- `accept` by the process `this` of its socket `sock`.
unfoldable pub accept : ℕ → ℕ → ℕ → ℕ → State → Option (Answer × State)
accept sock copy meta this st = elim (st.driver.sockets sock) [
  | none ↦ none
  | some s ↦ elim (process st.table this) [
    | none ↦ none
    | some p ↦ accept_from sock s s.connection_queue copy meta this p st
  ]
]
