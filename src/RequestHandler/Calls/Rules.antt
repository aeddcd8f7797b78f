-- ===== src/RequestHandler/Calls/Rules.antt =====
-- One rule for each way to build a computation of a handler.
use remote_file_system.Prelude.{
  ◌≡◌, refl, ap, Bool, true, false, Option, none, some, Bytes, if◌then◌else◌, Run, done, undefined,
  running, arith,
}
use mathlib.Core.Path.{subst}
use remote_file_system.Prelude.Int.{ℤ}
use remote_file_system.FileSystem.{FileSystem}
use remote_file_system.Protocol.Response.{Response}
use remote_file_system.Protocol.Transmit.{
  with_memory, send_text, send_response, build_and_send_response,
}
use remote_file_system.RequestHandler.Calls.{Calls, no_calls, call, Acts}
use remote_file_system.Socket
use remote_file_system.Socket.{Socket}
use remote_file_system.World.{World, M, and_then, ◌>>=◌, pure, lift_run, on_socket, send}

pub Calls-append :
    {rights : Option Bytes} {fs fs1 fs2 : FileSystem}
    → Calls rights fs fs1
    → Calls rights fs1 fs2
    → Calls rights fs fs2
Calls-append no_calls ys = ys
Calls-append (call c xs) ys = call c (Calls-append xs ys)

pub Calls-refl : {rights : Option Bytes} {fs fs' : FileSystem} → fs ≡ fs' → Calls rights fs fs'
Calls-refl {rights} {fs} e = subst (λ x. Calls rights fs x) e no_calls

pub result-parts :
    {A : Type 0} {a b : A} {w v : World}
    → ◌≡◌ {A = Run (A × World)} (done (a, w)) (done (b, v))
    → (a ≡ b) × (w ≡ v)
result-parts e = ground arith

module _ {A : Type 0} {rights : Option Bytes} where
  pub Acts-pure : (a : A) → Acts rights (pure a)
  Acts-pure a = record { at = λ w w' b e. Calls-refl (ap (λ v. v.fs) (result-parts e).1) }

  pub Acts-undefined : Acts {A = A} rights (λ w. undefined)
  Acts-undefined = record { at = λ w w' b e. cc e }

  pub Acts-if :
      (b : Bool) (m n : M A) → Acts rights m → Acts rights n → Acts rights (if b then m else n)
  Acts-if true m n km kn = km
  Acts-if false m n km kn = kn

module _ {A B : Type 0} {rights : Option Bytes} where
  pub Acts-option :
      (o : Option B) (m : M A) (f : B → M A)
      → Acts rights m
      → ((b : B) → Acts rights (f b))
      → Acts rights (elim o [ none ↦ m | some b ↦ f b ])
  Acts-option none m f km kf = km
  Acts-option (some b) m f km kf = kf b

  pub Acts-bind :
      (m : M A) (f : A → M B)
      → Acts rights m
      → ((a : A) → Acts rights (f a))
      → Acts rights (m >>= f)
  Acts-bind m f km kf = record { at = λ w w' b e. by_run w w' b (m w) refl e }
    where
      by_run :
          (w w' : World) (b : B) (r : Run (A × World))
          → m w ≡ r
          → and_then r f ≡ done (b, w')
          → Calls rights w.fs w'.fs
      by_run w w' b (done (a, w1)) q e = Calls-append (km.at w w1 a q) ((kf a).at w1 w' b e)
      by_run w w' b undefined q e = cc e
      by_run w w' b running q e = cc e

module _ {A : Type 0} {rights : Option Bytes} where
  -- a computation on the socket alone
  pub Acts-on_socket : (f : Socket → A × Socket) → Acts rights (on_socket f)
  Acts-on_socket f = record { at = λ w w' b e. Calls-refl (ap (λ v. v.fs) (result-parts e).1) }

  pub Acts-lift : (r : Run A) → Acts rights (lift_run r)
  Acts-lift (done a) = Acts-pure a
  Acts-lift undefined = Acts-undefined
  Acts-lift running = record { at = λ w w' b e. cc e }

  pub Acts-with_memory : (f : Bool → Run A) → Acts rights (with_memory f)
  Acts-with_memory f = record { at = λ w w' b e. (Acts-lift (f w.memory)).at w w' b e }

module _ {rights : Option Bytes} where
  pub Acts-send : (b : Bytes) → Acts rights (send b)
  unfolding send
  Acts-send b = Acts-on_socket (Socket.send b)

  pub ruleset acts_rules =
      (Acts-pure, Acts-if, Acts-option, Acts-bind, Acts-lift, Acts-with_memory, Acts-send)

  send_text-Acts : (text : Option Bytes) → Acts rights (send_text text)
  unfolding send_text
  send_text-Acts none = search acts_rules
  send_text-Acts (some text) =
      Acts-bind (send text) _ (Acts-send text)
        (λ o. Acts-option o _ _ (search acts_rules) (search acts_rules))

  send_response-Acts : (res : Option Response) → Acts rights (send_response res)
  unfolding send_response
  send_response-Acts none = search acts_rules
  send_response-Acts (some res) = search (acts_rules, send_text-Acts)

  pub build_and_send_response-Acts :
      (status : Bool) (len : ℤ) (message : Option Bytes)
      → Acts rights (build_and_send_response status len message)
  unfolding build_and_send_response
  build_and_send_response-Acts status len message = search (acts_rules, send_response-Acts)
