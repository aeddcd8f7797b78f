-- ===== src/Structs/Responses.antt =====
-- Responses in memory, against their values in Protocol/Response.
use mathlib.Core.Option
use remote_file_system.Prelude.{
  ◌≡◌, ◌≢◌, refl, sym, ◌∙◌, inl, inr, Bool, true, false, ◌&&◌, Option, none, some, Bytes, ◌==◌,
  ==_ne, not, if◌then◌else◌, done, arith, Bool-cases,
}
use remote_file_system.Prelude.Int.{ℤ, is_negative}
use remote_file_system.LockList.{Ptr, null}
use remote_file_system.Protocol.Response.{response, message_text, create_response}
use remote_file_system.Structs.{
  response_block, Memory, put_block, strdup, free_both, free_response, allocate_response, text_at,
  response_at,
}
use remote_file_system.Structs.Blocks.{
  IsNew, SameBlocks, put_block-at, strdup-at, put_block-put_block, text_at-block, text_at-is_null,
  load_block-block, free_both-struct,
}

free_response-null : (m : Memory) → free_response null m ≡ done m
unfolding free_response
free_response-null m = refl

response_at-null : (m : Memory) → response_at null m ≡ none
unfolding response_at
response_at-null m = refl

free_response-block :
    (p c : Ptr) (s : Option Bool) (n : Option ℤ) (m : Memory)
    → p ≢ null
    → m p ≡ some (response_block s c n)
    → free_response p m ≡ free_both c p m
unfolding free_response
free_response-block p c s n m ne at = rw (==_ne p null ne, load_block-block p _ m ne at) refl

response_at-block :
    (p c : Ptr) (s : Bool) (n : ℤ) (x : Memory)
    → p ≢ null
    → x p ≡ some (response_block (some s) c (some n))
    → response_at p x ≡ Option.map (λ t. response s t n) (text_at c x)
unfolding response_at
response_at-block p c s n x ne at = rw (==_ne p null ne, at) refl

module _ (mem st : Bool) (message : Option Bytes) (n : ℤ) where
  create_response-refused : is_negative n ≡ true → create_response mem st message n ≡ none
  unfolding create_response
  create_response-refused e = rw e (elim (Bool-cases mem) [ inl t ↦ rw t refl | inr f ↦ rw f refl ])

  create_response-no_memory : create_response false st message n ≡ none
  unfolding create_response
  create_response-no_memory = refl

  create_response-made :
      is_negative n ≡ false
      → create_response mem st message n
        ≡ (if mem then some (response st (message_text message) n) else none)
  unfolding create_response
  create_response-made e = rw e refl

module _ (p c : Ptr) (m : Memory) (new_p : IsNew m p) (new_c : IsNew m c)
    (apart : c ≢ null → c ≢ p) where
  freed :
      (s : Bytes) (st : Option Bool) (n : Option ℤ) (x : Memory)
      → p ≢ null
      → SameBlocks (put_block p (some (response_block st c n)) (strdup c s m)) x
      → (x' : Memory) × (free_response p x ≡ done x') × SameBlocks m x'
  freed s st n x ne same =
      let (x', e, same') =
        free_both-struct c p s (response_block st c n) m new_c (new_p ne) apart x ne same in
      (
        x',
        free_response-block p c st n x ne (
              ground
                (arith, same p, put_block-at p p (some (response_block st c n)) (strdup c s m)))
            ∙ e,
        same',
      )

  -- the struct that `createResponse` fills
  stands :
      (s : Bytes) (st : Bool) (n : ℤ) (x : Memory)
      → p ≢ null
      → SameBlocks (put_block p (some (response_block (some st) c (some n))) (strdup c s m)) x
      → response_at p x ≡ (if not (c == null) then some (response st s n) else none)
  stands s st n x ne same =
      response_at-block p c st n x ne (
        ground (
          arith,
          same p,
          put_block-at p p (some (response_block (some st) c (some n))) (strdup c s m),
        ))
      ∙ elim (Bool-cases (c == null)) [
        | inl e ↦ rw (text_at-is_null c x e, e) refl
        | inr e ↦
            let c_ne : c ≢ null = ground (arith, e) in
            rw
              (
                text_at-block c s x c_ne (
                    ground (
                      arith,
                      same c,
                      put_block-at p c (some (response_block (some st) c (some n))) (strdup c s m),
                      strdup-at c c s m,
                      apart c_ne,
                      e,
                    )),
                e,
              )
              refl
      ]

  -- `createResponse` and `freeResponse` on memory, where `malloc` returns NULL or two new addresses that
  -- differ: both return, on every branch, without memory and for a negative length too; what the pointer
  -- stands for is the response of the model without addresses; and behind the two calls each block is as it
  -- was before them: nothing leaks, and nothing is freed twice.
  pub free_response-allocate_response :
      (success : Bool) (message : Option Bytes) (size : ℤ)
      → (q : Ptr) × (m' m'' : Memory) × (allocate_response p c success message size m
          ≡ done (q, m'))
        × (response_at q m'
            ≡ create_response (not (p == null) && not (c == null)) success message size)
        × (free_response q m' ≡ done m'')
        × SameBlocks m m''
  unfolding allocate_response
  free_response-allocate_response success message size = elim (Bool-cases (p == null)) [
    | inl e ↦ (
      null,
      m,
      m,
      rw e refl,
      response_at-null m ∙ rw e (sym (create_response-no_memory false success message size)),
      free_response-null m,
      λ q. refl,
    )
    | inr e ↦ elim (Bool-cases (is_negative size)) [
      | inl neg ↦
          let (x', e', same') =
            freed (message_text message) none none _ (ground (arith, e)) (λ q. refl) in
          (
            null,
            x',
            x',
            rw (e, neg, e') refl,
            response_at-null x' ∙ sym (create_response-refused _ success message size neg),
            free_response-null x',
            same',
          )
      | inr ok ↦
          let same =
            put_block-put_block p (some (response_block (some success) c (some size)))
              (some (response_block none c none)) (strdup c (message_text message) m) in
          let (x', e', same') =
            freed (message_text message) (some success) (some size) _ (ground (arith, e)) same in
          (
            p,
            _,
            x',
            rw (e, ok) refl,
            stands (message_text message) success size _ (ground (arith, e)) same
                ∙ rw e (sym (create_response-made (not (c == null)) success message size ok)),
            e',
            same',
          )
    ]
  ]
