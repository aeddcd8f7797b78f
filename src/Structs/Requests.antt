-- ===== src/Structs/Requests.antt =====
-- Requests in memory, against their values in Protocol/Request.
use mathlib.Core.Option
use remote_file_system.Prelude.{
  ◌≡◌, ◌≢◌, refl, sym, ap, ◌∙◌, inl, inr, Bool, true, false, ◌&&◌, Option, none, some, Bytes, ◌==◌,
  ==_ne, not, if◌then◌else◌, done, arith, Bool-cases,
}
use remote_file_system.Prelude.Int.{ℤ, is_negative}
use remote_file_system.Command.{CommandType, write, get, rm, ls, unknown, Command}
use remote_file_system.FileSystem.{FileSystem}
use remote_file_system.LockList.{Ptr, null}
use remote_file_system.Protocol.Request.{Request, request, is_refused, create_request}
use remote_file_system.Structs.{
  request_block, Memory, put_block, strdup, free_both, free_request, allocate_request,
  request_length, text_at, request_at,
}
use remote_file_system.Structs.Blocks.{
  IsNew, IsApart, SameBlocks, put_block-at, strdup-at, put_block-put_block, text_at-block,
  text_at-is_null, load_block-block, free_both-struct,
}
use remote_file_system.Utils.Transfer.{get_file_size}

request_at-null : (m : Memory) → request_at null m ≡ none
unfolding request_at
request_at-null m = refl

free_request-null : (m : Memory) → free_request null m ≡ done m
unfolding free_request
free_request-null m = refl

module _ (p c : Ptr) (type : CommandType) (x : Memory) (ne : p ≢ null) where
  free_request-block :
      (n : Option ℤ) → x p ≡ some (request_block type c n) → free_request p x ≡ free_both c p x
  unfolding free_request
  free_request-block n at = rw (==_ne p null ne, load_block-block p _ x ne at) refl

  request_at-block :
      (n : ℤ)
      → x p ≡ some (request_block type c (some n))
      → request_at p x ≡ Option.map (λ t. request type t n) (text_at c x)
  unfolding request_at
  request_at-block n at = rw (==_ne p null ne, at) refl

-- a command with both paths
abbrev pub command_of : CommandType → (ip local remote : Bytes) → Command
command_of type ip local remote = record {
  c_type = type;
  server_ip = ip;
  local_path = some local;
  remote_path = some remote;
}

module _ (mem : Bool) (fs : FileSystem) (type : CommandType) (ip local path : Bytes) where
  create_request-refused :
      is_refused type ≡ true
      → create_request mem fs (some (command_of type ip local path)) ≡ done none
  unfolding create_request
  create_request-refused e = rw e refl

  create_request-no_memory :
      mem ≡ false → create_request mem fs (some (command_of type ip local path)) ≡ done none
  unfolding create_request
  create_request-no_memory e =
      rw e (elim (Bool-cases (is_refused type)) [ inl t ↦ rw t refl | inr f ↦ rw f refl ])

-- a request that is made where there is memory
abbrev created : FileSystem → CommandType → (local path : Bytes) → Option Request
created fs type local path =
    if is_negative (request_length type (get_file_size fs local))
    then none
    else some (request type path (request_length type (get_file_size fs local)))

create_request-made :
    (mem : Bool) (fs : FileSystem) (type : CommandType) (ip local path : Bytes)
    → is_refused type ≡ false
    → create_request mem fs (some (command_of type ip local path))
      ≡ done (if mem then created fs type local path else none)
unfolding create_request
create_request-made true fs write ip local path e = refl
create_request-made false fs write ip local path e = refl
create_request-made true fs get ip local path e = refl
create_request-made false fs get ip local path e = refl
create_request-made true fs rm ip local path e = refl
create_request-made false fs rm ip local path e = refl
create_request-made true fs ls ip local path e = refl
create_request-made false fs ls ip local path e = refl
create_request-made mem fs unknown ip local path e = absurd (ground (arith, e))

created-refused :
    (mem : Bool) (fs : FileSystem) (type : CommandType) (local path : Bytes)
    → is_negative (request_length type (get_file_size fs local)) ≡ true
    → (if mem then created fs type local path else none) ≡ none
created-refused true fs type local path e = rw e refl
created-refused false fs type local path e = refl

module _ (p c : Ptr) (type : CommandType) (m : Memory) (new_p : IsNew m p) (new_c : IsNew m c)
    (apart : IsApart c p) (x : Memory) (s : Bytes) (ne : p ≢ null) where
  freed :
      (n : Option ℤ)
      → SameBlocks (put_block p (some (request_block type c n)) (strdup c s m)) x
      → (x' : Memory) × (free_request p x ≡ done x') × SameBlocks m x'
  freed n same =
      let (x', e, same') =
        free_both-struct c p s (request_block type c n) m new_c (new_p ne) apart x ne same in
      (
        x',
        free_request-block p c type x ne n (
              ground
                (arith, same p, put_block-at p p (some (request_block type c n)) (strdup c s m)))
            ∙ e,
        same',
      )

  -- the struct that `createRequest` fills
  stands :
      (n : ℤ)
      → SameBlocks (put_block p (some (request_block type c (some n))) (strdup c s m)) x
      → request_at p x ≡ (if not (c == null) then some (request type s n) else none)
  stands n same =
      request_at-block p c type x ne n (
        ground
          (arith, same p, put_block-at p p (some (request_block type c (some n))) (strdup c s m)))
      ∙ elim (Bool-cases (c == null)) [
        | inl e ↦ rw (text_at-is_null c x e, e) refl
        | inr e ↦
            let c_ne : c ≢ null = ground (arith, e) in
            rw
              (
                text_at-block c s x c_ne (
                    ground (
                      arith,
                      same c,
                      put_block-at p c (some (request_block type c (some n))) (strdup c s m),
                      strdup-at c c s m,
                      apart c_ne,
                      e,
                    )),
                e,
              )
              refl
      ]

-- `createRequest` of a command with both paths, and `freeRequest`, on memory, where `malloc` returns NULL or
-- two new addresses that differ: both return, on every branch, without memory, for an unknown command, and
-- for a WRITE of a file that cannot be measured too; what the pointer stands for is the request of the model
-- without addresses; and behind the two calls each block is as it was before them: nothing leaks, and nothing
-- is freed twice.
pub free_request-allocate_request :
    (p c : Ptr) (m : Memory) (fs : FileSystem) (type : CommandType) (ip local path : Bytes)
    → IsNew m p
    → IsNew m c
    → IsApart c p
    → (q : Ptr) × (m' m'' : Memory) × (allocate_request p c type path (get_file_size fs local) m
        ≡ done (q, m'))
      × (create_request
            (not (p == null) && not (c == null))
            fs
            (some (command_of type ip local path))
          ≡ done (request_at q m'))
      × (free_request q m' ≡ done m'')
      × SameBlocks m m''
unfolding allocate_request
free_request-allocate_request p c m fs type ip local path new_p new_c apart =
    let mem = not (p == null) && not (c == null) in
    let size = get_file_size fs local in
    elim (Bool-cases (is_refused type)) [
      | inl refused ↦ (
        null,
        m,
        m,
        rw refused refl,
        create_request-refused mem fs type ip local path refused
            ∙ ap done (sym (request_at-null m)),
        free_request-null m,
        λ q. refl,
      )
      | inr known ↦ elim (Bool-cases (p == null)) [
        | inl e ↦ (
          null,
          m,
          m,
          rw (known, e) refl,
          create_request-no_memory mem fs type ip local path (rw e refl)
              ∙ ap done (sym (request_at-null m)),
          free_request-null m,
          λ q. refl,
        )
        | inr e ↦ elim (Bool-cases (is_negative (request_length type size))) [
          | inl neg ↦
              let (x', e', same') =
                freed p c type m new_p new_c apart _ path (ground (arith, e)) none (λ q. refl) in
              (
                null,
                x',
                x',
                rw (known, e, neg, e') refl,
                create_request-made mem fs type ip local path known
                    ∙ ap done
                        (created-refused mem fs type local path neg ∙ sym (request_at-null x')),
                free_request-null x',
                same',
              )
          | inr ok ↦
              let same =
                put_block-put_block p
                  (some (request_block type c (some (request_length type size))))
                  (some (request_block type c none)) (strdup c path m) in
              let (x', e', same') =
                freed p c type m new_p new_c apart _ path (ground (arith, e)) _ same in
              (
                p,
                _,
                x',
                rw (known, e, ok) refl,
                create_request-made mem fs type ip local path known
                    ∙ ap done (
                        rw (e, ok)
                          (sym (
                            stands p c type m new_p new_c apart _ path (ground (arith, e)) _
                              same))),
                e',
                same',
              )
        ]
      ]
    ]
