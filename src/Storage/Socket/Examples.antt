-- ===== src/Storage/Socket/Examples.antt =====
-- Runs of sockets and of their buffers.
use lensor_os.Prelude.{
  ℕ, ◌^◌, ◌≡◌, ◌<◌, ◌⊎◌, refl, true, false, none, some, List, [], ◌∷◌, ◌++◌, arith, if◌then◌else◌,
  ◌==◌, take, length-replicate,
}
use lensor_os.Process.Table.{Table}
use lensor_os.Storage.Conserving.{run}
use lensor_os.Storage.Fifo
use lensor_os.Storage.Fifo.{FifoBuffer}
use lensor_os.Storage.Fifo.Laws.{IsValid, contents}
use lensor_os.Storage.Fifo.Stream.{Op, do_read, do_write, fifo_between, run_fifo-stream}
use lensor_os.Storage.Socket.{
  new_buffers, SocketAddress, lensor16, same_address, SocketData, new_socket, SocketDriver, client,
  server, get_bound_socket, bind, write, close, Result,
}
use lensor_os.Storage.Socket.Bindings.{bind-get_bound_socket}
use lensor_os.Storage.Socket.Connection.{IsEnd, Delivered, write-read}
use lensor_os.Storage.Socket.Lifetime.{Closed, close-Closed}

abbrev nobody : Table
nobody = []

-- Socket 10 is the client's and 11 the server's, with the buffers at 20.
abbrev client_socket : SocketData
client_socket = new_socket 1 (some 20)

abbrev server_socket : SocketData
server_socket = record client_socket { client_server = server }

abbrev pair : SocketDriver
pair = record {
  sockets =
      λ j. if j == 10 then some client_socket else if j == 11 then some server_socket else none;
  buffers = λ j. if j == 20 then some new_buffers else none;
  bindings = [];
}

client_IsEnd : IsEnd pair 10 client 20 new_buffers
client_IsEnd = record {
  entry = client_socket;
  there = refl;
  role = refl;
  points = refl;
  stored = refl;
}

server_IsEnd : IsEnd pair 11 server 20 new_buffers
server_IsEnd = record {
  entry = server_socket;
  there = refl;
  role = refl;
  points = refl;
  stored = refl;
}

fresh-IsValid : (size : ℕ) → size < 2 ^ 64 → IsValid size (Fifo.clear size)
fresh-IsValid size h = record {
  sized = length-replicate {A = ℕ} size 0;
  within = omega arith;
  small = h;
}

write-read_example :
    (r : Result) × (write 10 1 2 (5 ∷ 6 ∷ []) pair nobody ≡ some r)
    × Delivered pair 11 8 2 (contents new_buffers.rx ++ take 2 (5 ∷ 6 ∷ [])) 2 r
write-read_example =
    write-read client pair 10 11 20 new_buffers 1 2 2 8 (5 ∷ 6 ∷ []) nobody client_IsEnd
      server_IsEnd (fresh-IsValid 2040 (omega arith)) (omega arith) (omega arith) (omega arith)

close-Closed_example :
    (d' : SocketDriver) × (close 10 pair ≡ some d') × Closed pair 10 20 client_socket new_buffers d'
close-Closed_example =
    close-Closed 10 20 client_socket new_buffers pair refl refl refl (omega arith) (omega arith)

bind-get_bound_socket_example :
    let (done, d') = bind 10 client_socket (lensor16 (7 ∷ [])) pair in
    ((s : ℕ) × (get_bound_socket (lensor16 (7 ∷ [])) pair ≡ some s) × (done ≡ false) × (d' ≡ pair))
    ⊎ ((get_bound_socket (lensor16 (7 ∷ [])) pair ≡ none)
        × (done ≡ true)
        × ((other : SocketAddress)
            → get_bound_socket other d' ≡ (
                if same_address (lensor16 (7 ∷ [])) other
                then some 10
                else get_bound_socket other pair)))
bind-get_bound_socket_example = bind-get_bound_socket 10 client_socket (lensor16 (7 ∷ [])) pair

abbrev ops : List (Op 8)
ops = do_write 1 (5 ∷ 6 ∷ []) (omega arith) ∷ do_read 2 1 ∷ []

run_fifo-stream_example :
    let r = run (fifo_between 8) ops (Fifo.clear 8, nobody) in
    (r.given ++ contents r.after.0 ≡ contents (Fifo.clear 8) ++ r.taken) × IsValid 8 r.after.0
run_fifo-stream_example =
    run_fifo-stream 8 ops (Fifo.clear 8) nobody (fresh-IsValid 8 (omega arith))

abbrev holding : FifoBuffer
holding = record (Fifo.clear 8) { offset = 3 }

holding-IsValid : IsValid 8 holding
holding-IsValid = record { sized = refl; within = omega arith; small = omega arith }
