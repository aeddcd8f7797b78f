-- ===== src/RequestHandler/Get.antt =====
-- `handleGetRequest`: what the client gets.
use remote_file_system.Prelude.{
  ℕ, ◌<◌, ◌≡◌, ◌≢◌, refl, ap, ◌∙◌, true, false, none, some, List, [], ◌++◌, append_assoc, Bytes,
  codes, length, done, undefined, running, arith,
}
use remote_file_system.Prelude.Int.{pos, negsuc}
use remote_file_system.CString.Digits.{zero_no_power, pow10}
use remote_file_system.FileSystem.{FileSystem, Stream, left, of_directory, open_read, end_position}
use remote_file_system.Protocol.Request.{Request}
use remote_file_system.Protocol.Response.{response_text}
use remote_file_system.Protocol.Transmit.{build_and_send_response}
use remote_file_system.Protocol.Delivery.{
  build_and_send_response-sends, build_and_send_response-overflow,
}
use remote_file_system.RequestHandler.{handle_get_request}
use remote_file_system.Socket.{Accept}
use remote_file_system.World.{World}
use remote_file_system.Utils.Transfer.{get_file_size, send_file_contents}
use remote_file_system.Utils.Transfer.Sending.{
  after_sending, send_file_contents-sends, send_file_contents-directory,
}

size_of :
    (fs : FileSystem) (path : Bytes) (file : Stream)
    → open_read fs path ≡ some file
    → get_file_size fs path ≡ end_position fs file
unfolding get_file_size
size_of fs path file e = ground (arith, e)

size_of_none :
    (fs : FileSystem) (path : Bytes) → open_read fs path ≡ none → get_file_size fs path ≡ negsuc 0
unfolding get_file_size
size_of_none fs path e = ground (arith, e)

size_of_bytes : (fs : FileSystem) (b : Bytes) → end_position fs (left b) ≡ pos (length b)
unfolding end_position
size_of_bytes fs b = refl

size_of_directory : (fs : FileSystem) → end_position fs of_directory ≡ fs.dir_size
unfolding end_position
size_of_directory fs = refl

module _ (fuel : ℕ) (r : Request) (w : World) where
  get_missing :
      get_file_size w.fs r.remote_path ≡ negsuc 0
      → handle_get_request fuel r w
        ≡ build_and_send_response false
            (pos 0)
            (some (codes "unable to open and/or get size of the requested file"))
            w
  unfolding handle_get_request
  get_missing e = ground (arith, e)

  get_found :
      (n : ℕ) (w' : World)
      → get_file_size w.fs r.remote_path ≡ pos n
      → build_and_send_response true (pos n) (some (codes "OK")) w ≡ done (true, w')
      → handle_get_request fuel r w ≡ send_file_contents fuel r.remote_path w'
  unfolding handle_get_request
  get_found n w' e s = ground (arith, e, s)

  get_undefined :
      (n : ℕ)
      → get_file_size w.fs r.remote_path ≡ pos n
      → build_and_send_response true (pos n) (some (codes "OK")) w ≡ undefined
      → handle_get_request fuel r w ≡ undefined
  unfolding handle_get_request
  get_undefined n e s = ground (arith, e, s)

-- For a file with `b` in it, whose length is no power of ten, with memory, more fuel than bytes and a
-- network that takes all it is given: the client is sent the response with the length, and then exactly
-- the bytes of the file. The files of the server are as they were.
pub handle_get_request-sends :
    (fuel : ℕ) (r : Request) (b : Bytes) (w : World)
    → open_read w.fs r.remote_path ≡ some (left b)
    → ((k : ℕ) → length b ≢ pow10 k)
    → length b < fuel
    → w.memory ≡ true
    → w.socket.accepts ≡ []
    → (rest : List Accept) × (handle_get_request fuel r w
        ≡ done (true, after_sending w (response_text true (pos (length b)) (codes "OK") ++ b) rest))
handle_get_request-sends fuel r b w opened not_power lt memory takes =
    let head = response_text true (pos (length b)) (codes "OK") in
    let w1 = after_sending w head [] in
    let (rest, e, _) = send_file_contents-sends fuel r.remote_path b w1 opened tt lt in
    (
      rest,
      get_found fuel r w (length b) w1
            (size_of w.fs r.remote_path (left b) opened ∙ size_of_bytes w.fs b)
            (build_and_send_response-sends w true (codes "OK") memory (length b) not_power takes)
          ∙ e
          ∙ ap
              (λ t. done (true, record w { socket = record w.socket { sent = t; accepts = rest } }))
              (append_assoc w.socket.sent head b),
    )

-- For a path that cannot be opened, the client is sent the error alone, with memory and a network that
-- takes all it is given.
pub handle_get_request-missing :
    (fuel : ℕ) (r : Request) (w : World)
    → open_read w.fs r.remote_path ≡ none
    → w.memory ≡ true
    → w.socket.accepts ≡ []
    → handle_get_request fuel r w
      ≡ done (
        true,
        after_sending w
            (response_text false
              (pos 0)
              (codes "unable to open and/or get size of the requested file"))
            [],
      )
handle_get_request-missing fuel r w e memory takes =
    get_missing fuel r w (size_of_none w.fs r.remote_path e)
    ∙ build_and_send_response-sends w false
        (codes "unable to open and/or get size of the requested file") memory 0 zero_no_power takes

-- A GET of a file whose length is a power of ten writes behind the response's buffer.
pub handle_get_request-overflow :
    (fuel k : ℕ) (r : Request) (b : Bytes) (w : World)
    → open_read w.fs r.remote_path ≡ some (left b)
    → length b ≡ pow10 k
    → w.memory ≡ true
    → handle_get_request fuel r w ≡ undefined
handle_get_request-overflow fuel k r b w opened power memory =
    get_undefined fuel r w (pow10 k)
      (size_of w.fs r.remote_path (left b) opened ∙ size_of_bytes w.fs b ∙ ap pos power)
      (build_and_send_response-overflow w true (codes "OK") memory k)

-- A GET of a directory never ends, whatever the fuel, where `ftell` reports for it a number that is no
-- power of ten, with memory and a network that takes all it is given.
pub handle_get_request-directory :
    (fuel n : ℕ) (r : Request) (w : World)
    → open_read w.fs r.remote_path ≡ some of_directory
    → w.fs.dir_size ≡ pos n
    → ((k : ℕ) → n ≢ pow10 k)
    → w.memory ≡ true
    → w.socket.accepts ≡ []
    → handle_get_request fuel r w ≡ running
handle_get_request-directory fuel n r w opened size not_power memory takes =
    let w1 = after_sending w (response_text true (pos n) (codes "OK")) [] in
    get_found fuel r w n w1
      (size_of w.fs r.remote_path of_directory opened ∙ size_of_directory w.fs ∙ size)
      (build_and_send_response-sends w true (codes "OK") memory n not_power takes)
    ∙ send_file_contents-directory fuel r.remote_path w1 opened
