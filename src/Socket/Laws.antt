-- ===== src/Socket/Laws.antt =====
-- Sockets on which no call fails.
use mathlib.Core.Path.{subst}
use remote_file_system.Prelude.{◌≡◌, refl, sym, List, [], ◌∷◌, ◌++◌, Bytes, is_empty, false}
use remote_file_system.Socket.{Arrival, bytes, recv_error, Accept, took, send_error}

-- Every `send` takes at least a byte.
abbrev pub NoSendError : List Accept → Type 0
NoSendError [] = Unit
NoSendError (took n ∷ rest) = NoSendError rest
NoSendError (send_error ∷ rest) = ⊥

-- The blocks that arrive spell the text, and no `recv` fails before its end.
abbrev pub Delivers : List Arrival → Bytes → Type 0
Delivers [] text = text ≡ []
Delivers (recv_error ∷ rest) text = ⊥
Delivers (bytes b ∷ rest) text =
    (is_empty b ≡ false) × ((text' : Bytes) × (text ≡ b ++ text') × Delivers rest text')

-- A message that arrives in a block of its own, and then the rest.
pub Delivers-first :
    (first b text : Bytes) (rest arrivals : List Arrival)
    → is_empty first ≡ false
    → arrivals ≡ bytes first ∷ rest
    → Delivers rest b
    → text ≡ first ++ b
    → Delivers arrivals text
Delivers-first first b text rest arrivals ne e d f =
    subst (λ a. Delivers a text) (sym e)
      (subst (λ t. Delivers (bytes first ∷ rest) t) (sym f) (ne, (b, refl, d)))
