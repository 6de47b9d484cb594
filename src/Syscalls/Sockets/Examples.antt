-- ===== src/Syscalls/Sockets/Examples.antt =====
-- A connection between two processes.
use lensor_os.Prelude.{◌≡◌, refl, none, some, List, [], ◌∷◌, arith, if◌then◌else◌, ◌==◌}
use lensor_os.Process.{running}
use lensor_os.Process.Table.{process}
use lensor_os.Samples.{bare, no_files}
use lensor_os.Storage.Socket.{
  new_buffers, lensor16, SocketConnection, SocketData, new_socket, server, SocketDriver, close,
}
use lensor_os.Syscalls.Sockets.{State, accept}
use lensor_os.Syscalls.Sockets.Accepting.{accept-close}

-- Process 1 has the client socket 10, and process 2 the listening socket 11.
abbrev client_socket : SocketData
client_socket = new_socket 1 (some 20)

abbrev listening : SocketData
listening = record (new_socket 2 (some 21)) { address = lensor16 (7 ∷ []); client_server = server }

abbrev state_with : List SocketConnection → State
state_with queue = record {
  driver = record {
    sockets = λ j.
        if j == 10
        then some client_socket
        else if j == 11
        then some (record listening { connection_queue = queue })
        else none;
    buffers = λ j. if j == 20 then some new_buffers else none;
    bindings = record { address = lensor16 (7 ∷ []); socket = 11 } ∷ [];
  };
  listeners = λ _. [];
  vfs = no_files;
  table = bare 1 running ∷ bare 2 running ∷ [];
}

abbrev waiting : SocketConnection
waiting = record { address = client_socket.address; socket = 10; pid = 1 }

accept-close_example :
    (d' : SocketDriver) × (close 10 (state_with (waiting ∷ [])).driver ≡ some d')
    × (accept 11 12 30 2 (record (state_with (waiting ∷ [])) { driver = d' }) ≡ none)
unfolding process
accept-close_example =
    accept-close 10 11 12 30 2 20 client_socket
      (record listening { connection_queue = waiting ∷ [] }) new_buffers waiting [] (bare 2 running)
      (state_with (waiting ∷ [])) refl refl refl (omega arith) (omega arith) refl refl refl
      (omega arith) refl
