-- ===== src/Syscalls/Sockets/Accepting.antt =====
-- A connection that is made and accepted gives two ends of one pair of buffers.
use lensor_os.Prelude.{
  ℕ, ◌≡◌, ◌≢◌, ◌<◌, ap, Option, none, some, List, ◌∷◌, arith, ◌∙◌, sym, if◌then◌else◌, ◌==◌,
}
use lensor_os.Prelude.Words.{add64, u64_mod}
use lensor_os.Process.{Process}
use lensor_os.Process.Table.{Table, process}
use lensor_os.Storage.Socket.{
  SocketBuffers, SocketConnection, SocketData, client, server, SocketDriver, close,
}
use lensor_os.Storage.Socket.Connection.{IsEnd}
use lensor_os.Storage.Socket.Lifetime.{close-Closed}
use lensor_os.Containers.SparseVector
use lensor_os.Containers.SparseVector.{SparseVector}
use lensor_os.Storage.VirtualFilesystem.{Vfs, file_of, procfd_to_fd}
use lensor_os.Syscalls.Files.{Answer, returned}
use lensor_os.Syscalls.Sockets.{State, accept_from, accept}
use lensor_os.Syscalls.Sockets.Alive.{Alive}

-- What the acceptance of it comes to for the process `this`, whose descriptors were those of `q`: a
-- descriptor that was free and leads to the metadata `meta` now, and the two ends of one pair of
-- buffers, which has one user more.
pub record Connected (x copy meta this a : ℕ) (b : SocketBuffers) (v : Vfs) (q : Process)
    (o : Option (Answer × State)) : Type 0 where
  pub procfd : ℕ
  pub state : State
  pub accepted : o ≡ some (returned procfd, state)
  pub fresh : procfd_to_fd q procfd ≡ none
  pub holder : Process
  pub held : process state.table this ≡ some holder
  pub leads :
      (j : ℕ) → file_of state.vfs holder j ≡ (if procfd == j then some meta else file_of v q j)
  pub client_end : IsEnd state.driver x client a (record b { ref_count = add64 b.ref_count 1 })
  pub server_end : IsEnd state.driver copy server a (record b { ref_count = add64 b.ref_count 1 })

accept_dangling :
    (y copy meta this : ℕ) (sd : SocketData) (c : SocketConnection) (rest : List SocketConnection)
    (p : Process) (st : State)
    → st.driver.sockets y ≡ some sd
    → sd.connection_queue ≡ c ∷ rest
    → c.socket ≢ y
    → st.driver.sockets c.socket ≡ none
    → process st.table this ≡ some p
    → accept y copy meta this st ≡ none
unfolding accept accept_from
accept_dangling y copy meta this sd c rest p st there queue ne gone h = ground arith

-- The close of a client socket leaves its connection in the queue of the server: the accept that
-- takes it follows a pointer to memory that has been deleted.
pub accept-close :
    (x y copy meta this a : ℕ) (s sd : SocketData) (b : SocketBuffers) (c : SocketConnection)
    (rest : List SocketConnection) (p : Process) (st : State)
    → st.driver.sockets x ≡ some s
    → s.buffers ≡ some a
    → st.driver.buffers a ≡ some b
    → 0 < b.ref_count
    → b.ref_count < u64_mod
    → st.driver.sockets y ≡ some sd
    → sd.connection_queue ≡ c ∷ rest
    → c.socket ≡ x
    → x ≢ y
    → process st.table this ≡ some p
    → (d' : SocketDriver) × (close x st.driver ≡ some d')
      × (accept y copy meta this (record st { driver = d' }) ≡ none)
accept-close x y copy meta this a s sd b c rest p st there points stored positive small sd_there
      queue at_x ne h =
    let (d', closed, means) = close-Closed x a s b st.driver there points stored positive small in
    (
      d',
      closed,
      accept_dangling y copy meta this sd c rest p (record st { driver = d' })
          (means.sockets y ∙ ground arith) queue (λ e. ne (sym at_x ∙ e))
          (ap d'.sockets at_x ∙ means.sockets x ∙ ground arith) h,
    )
