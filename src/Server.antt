-- ===== src/Server.antt =====
-- server/server.c, and `createAndDetachThread` of server/thread_manager.c: the set-up of the server and
-- its loop over the connections. What the operating system answers is given as a value for each call.
pub mod Connections
use remote_file_system.Prelude.{
  ℕ, Bool, true, false, not, ◌&&◌, Option, none, some, List, [], ◌∷◌, ◌++◌, Bytes, codes,
  if◌then◌else◌, Run, done, undefined, running, ◌>>=◌,
}
use remote_file_system.Prelude.Int.{pos}
use remote_file_system.LockList.{FileLockList, create_file_lock_list}
use remote_file_system.Protocol.Transmit.{build_and_send_response}
use remote_file_system.World
use remote_file_system.World.{World, close}

-- What `pthread_create` does: it fails, or it starts a thread, which may have freed its arguments
-- before `createAndDetachThread` goes on.
pub data Created : Type 0 where
  refused : Created
  started : (args_freed : Bool) → Created

-- a thread by its start routine, `threadClientHandler`, and the connection in its arguments
pub data Thread : Type 0 where
  client_handler : (socket_descriptor : World) → Thread

-- The returned status, and the thread that was started. The result of `malloc` is not tested, and NULL is
-- written to. Where no thread is started, `thread_id` is read unassigned. Behind the start of the thread,
-- `thread_id` is written into the arguments.
unfoldable pub create_and_detach_thread :
    Bool → Created → (socket_descriptor : World) → Run (Bool × List Thread)
create_and_detach_thread false created socket_descriptor = undefined
create_and_detach_thread true refused socket_descriptor = undefined
create_and_detach_thread true (started true) socket_descriptor = undefined
create_and_detach_thread true (started false) socket_descriptor =
    done (true, client_handler socket_descriptor ∷ [])

-- what `accept` gives: a connection, with what its thread's creation meets, or -1
pub data Accepted : Type 0 where
  connected : (memory : Bool) → Created → World → Accepted
  not_accepted : Accepted

-- the threads that were started, and the connections that were refused
pub record Served : Type 0 where
  pub threads : List Thread
  pub turned_away : List World

-- the answer to a connection for which there is no thread
unfoldable pub turn_away : World → Run World
turn_away w =
    World.and_then
      (build_and_send_response false (pos 0)
        (some (codes "unable to spawn worker thread for this request")) w)
      (λ _. close)
    >>= λ (_, w'). done w'

-- The loop over the connections: the exit status, or `none` while it waits in `accept`.
unfoldable pub accept_loop : List Accepted → Served → Run (Option ℕ × Served)
accept_loop [] served = done (none, served)
accept_loop (not_accepted ∷ rest) served = done (some 255, served)
accept_loop (connected memory created w ∷ rest) served =
    elim (create_and_detach_thread memory created w) [
      | undefined ↦ undefined
      | running ↦ running
      | done (true, ts) ↦ accept_loop rest (record served { threads = served.threads ++ ts })
      | done (false, ts) ↦ elim (turn_away w) [
        | undefined ↦ undefined
        | running ↦ running
        | done w' ↦ accept_loop rest (record served { turned_away = served.turned_away ++ w' ∷ [] })
      ]
    ]

-- Where `popen` or `fgets` fails, a NULL stream or an unassigned buffer is read.
unfoldable pub print_server_address : Bool → Run (Unit {0})
print_server_address address_read = if address_read then done tt else undefined

-- The answers to the calls of the set-up. That of `setsockopt` is only reported.
pub record Setup : Type 0 where
  pub socket_made : Bool
  pub bound : Bool
  pub address_read : Bool
  pub listening : Bool

-- `main`: the exit status, the list of locks, and the connections
unfoldable pub server_main :
    Setup → Bool → List Accepted → Run (Option ℕ × Option FileLockList × Served)
server_main setup memory connections =
    if not setup.socket_made
    then done (some 255, none, record { threads = []; turned_away = [] })
    else if not setup.bound
    then done (some 255, none, record { threads = []; turned_away = [] })
    else (print_server_address setup.address_read >>= λ _.
        if not setup.listening
        then done (some 255, none, record { threads = []; turned_away = [] })
        else (accept_loop connections (record { threads = []; turned_away = [] })
            >>= λ (status, served). done (status, create_file_lock_list memory, served)))
