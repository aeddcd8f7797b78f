-- ===== src/Server/Connections.antt =====
-- The loop over the connections of the server.
use remote_file_system.Prelude.{
  ℕ, ◌≡◌, refl, sym, ap, ◌∙◌, Bool, true, false, not, ◌&&◌, Option, none, some, List, [], ◌∷◌, ◌++◌,
  append_assoc, append-nil, if◌then◌else◌, done, undefined, arith, Bool-cases, inl, inr,
}
use remote_file_system.LockList.{create_file_lock_list}
use remote_file_system.Server.{
  Created, refused, started, Thread, client_handler, print_server_address, create_and_detach_thread,
  Accepted, connected, not_accepted, Served, accept_loop, Setup, server_main,
}
use remote_file_system.World.{World}

-- memory was given, a thread was started, and it had not freed its arguments
abbrev pub starts : Bool → Created → Bool
starts memory refused = false
starts memory (started args_freed) = memory && not args_freed

-- every connection before the first failure of `accept` gets its thread
abbrev pub all_start : List Accepted → Bool
all_start [] = true
all_start (not_accepted ∷ rest) = true
all_start (connected memory created w ∷ rest) = starts memory created && all_start rest

-- the threads of those connections, in order
abbrev pub accepted : List Accepted → List Thread
accepted [] = []
accepted (not_accepted ∷ rest) = []
accepted (connected memory created w ∷ rest) = client_handler w ∷ accepted rest

-- the server waits on, or ends where `accept` fails
abbrev pub exit_status : List Accepted → Option ℕ
exit_status [] = none
exit_status (not_accepted ∷ rest) = some 255
exit_status (connected memory created w ∷ rest) = exit_status rest

create_and_detach_thread-starts :
    (memory : Bool) (created : Created) (w : World)
    → create_and_detach_thread memory created w
      ≡ (if starts memory created then done (true, client_handler w ∷ []) else undefined)
unfolding create_and_detach_thread
create_and_detach_thread-starts false refused w = refl
create_and_detach_thread-starts true refused w = refl
create_and_detach_thread-starts false (started args_freed) w = refl
create_and_detach_thread-starts true (started true) w = refl
create_and_detach_thread-starts true (started false) w = refl

module _ (memory : Bool) (created : Created) (w : World) (rest : List Accepted)
    (served : Served) where
  thread_started :
      create_and_detach_thread memory created w ≡ done (true, client_handler w ∷ [])
      → accept_loop (connected memory created w ∷ rest) served
        ≡ accept_loop rest (record served { threads = served.threads ++ client_handler w ∷ [] })
  unfolding accept_loop
  thread_started e = ground (arith, e)

  thread_failed :
      create_and_detach_thread memory created w ≡ undefined
      → accept_loop (connected memory created w ∷ rest) served ≡ undefined
  unfolding accept_loop
  thread_failed e = ground (arith, e)

-- The loop over the connections, on every sequence of what `accept` and the thread's creation do: either
-- some thread could not be started, or had freed its arguments early, and the behaviour is undefined; or
-- every connection is handed to a thread of its own, in order, no connection is ever turned away, and the
-- loop waits on, or returns -1 where `accept` fails.
pub accept_loop_lem :
    (connections : List Accepted) (served : Served)
    → accept_loop connections served ≡ (
        if all_start connections
        then done (
          exit_status connections,
          record served { threads = served.threads ++ accepted connections },
        )
        else undefined)
accept_loop_lem [] served =
    unfold accept_loop in
    ap (λ t. done (none, record served { threads = t })) (sym (append-nil served.threads))
accept_loop_lem (not_accepted ∷ rest) served =
    unfold accept_loop in
    ap (λ t. done (some 255, record served { threads = t })) (sym (append-nil served.threads))
accept_loop_lem (connected memory created w ∷ rest) served =
    elim (Bool-cases (starts memory created)) [
      | inr bad ↦ rw bad (
          thread_failed memory created w rest served
            (create_and_detach_thread-starts memory created w ∙ rw bad refl))
      | inl good ↦ rw good (
          thread_started memory created w rest served
            (create_and_detach_thread-starts memory created w ∙ rw good refl)
          ∙ accept_loop_lem rest
              (record served { threads = served.threads ++ client_handler w ∷ [] })
          ∙ ap
              (λ t.
                if all_start rest
                then done (exit_status rest, record served { threads = t })
                else undefined)
              (append_assoc served.threads (client_handler w ∷ []) (accepted rest)))
    ]

-- `main` where the server listens, and its address was read
server_main_lem :
    (setup : Setup) (memory : Bool) (connections : List Accepted)
    → setup.socket_made ≡ true
    → setup.bound ≡ true
    → setup.address_read ≡ true
    → setup.listening ≡ true
    → server_main setup memory connections ≡ (
        if all_start connections
        then done (
          exit_status connections,
          create_file_lock_list memory,
          record { threads = accepted connections; turned_away = [] },
        )
        else undefined)
unfolding server_main print_server_address
server_main_lem setup memory connections made bound address listening = ground (
  arith,
  made,
  bound,
  address,
  listening,
  accept_loop_lem connections (record { threads = []; turned_away = [] }),
)
