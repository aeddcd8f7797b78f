-- ===== src/CString/Tokens.antt =====
-- `strtok` with one delimiter: the texts that its successive calls return. Leading delimiters and
-- runs of delimiters are skipped, so a token is never empty.
use native.Mathlib.Decide.{ℕ_discrete}
use remote_file_system.Prelude.{
  ◌≢◌, is_empty, All-append, ℕ, ◌≡◌, refl, sym, ap, ◌∙◌, List, [], ◌∷◌, ◌++◌, append_assoc,
  append-nil, Bytes, Lacks, All, ◌==◌, arith, true, false,
}

-- a token ends: it is returned unless it is empty
abbrev pub flush : Bytes → List Bytes
flush [] = []
flush (c ∷ cur) = (c ∷ cur) ∷ []

unfoldable pub cut : ℕ → Bytes → Bytes → List Bytes
cut d [] cur = flush cur
cut d (c ∷ s) cur = elim (c == d) [
  | true ↦ flush cur ++ cut d s []
  | false ↦ cut d s (cur ++ c ∷ [])
]

unfoldable pub tokens : ℕ → Bytes → List Bytes
unfolding cut
tokens d s = cut d s []

pub cut-append :
    (d : ℕ) (p rest cur : Bytes) → Lacks d p → cut d (p ++ rest) cur ≡ cut d rest (cur ++ p)
unfolding cut
cut-append d [] rest cur h = ap (λ t. cut d rest t) (sym (append-nil cur))
cut-append d (c ∷ p) rest cur h =
    ground (arith, cut-append d p rest (cur ++ c ∷ []), append_assoc cur (c ∷ []) p)

pub cut_at_delimiter : (d : ℕ) (s cur : Bytes) → cut d (d ∷ s) cur ≡ flush cur ++ cut d s []
unfolding cut
cut_at_delimiter d s cur = ground arith

cut_past : (d c : ℕ) (s cur : Bytes) → c ≢ d → cut d (c ∷ s) cur ≡ cut d s (cur ++ c ∷ [])
unfolding cut
cut_past d c s cur h = ground arith

-- a token, a delimiter and more
pub tokens-cons :
    (d c : ℕ) (p rest : Bytes)
    → Lacks d (c ∷ p)
    → tokens d ((c ∷ p) ++ d ∷ rest) ≡ (c ∷ p) ∷ tokens d rest
unfolding tokens
tokens-cons d c p rest h = rw (cut-append d (c ∷ p) (d ∷ rest) [] h, cut_at_delimiter)

-- a text without the delimiter is one token
pub tokens-one : (d c : ℕ) (p : Bytes) → Lacks d (c ∷ p) → tokens d (c ∷ p) ≡ (c ∷ p) ∷ []
unfolding tokens cut
tokens-one d c p h = ap (λ s. cut d s []) (sym (append-nil (c ∷ p))) ∙ cut-append d (c ∷ p) [] [] h

-- what `strtok` returns
abbrev pub IsToken : ℕ → Bytes → Type 0
IsToken d t = (is_empty t ≡ false) × Lacks d t

flush-IsToken : (d : ℕ) (cur : Bytes) → Lacks d cur → All (IsToken d) (flush cur)
flush-IsToken d [] h = tt
flush-IsToken d (c ∷ cur) h = ((refl, h), tt)

cut-IsToken : (d : ℕ) (s cur : Bytes) → Lacks d cur → All (IsToken d) (cut d s cur)
cut-IsToken d [] cur h = unfold cut in flush-IsToken d cur h
cut-IsToken d (c ∷ s) cur h = elim (ℕ_discrete c d) [
  | yes e ↦
      rw (e, cut_at_delimiter d s cur)
        (All-append (IsToken d) (flush cur) (cut d s []) (flush-IsToken d cur h)
          (cut-IsToken d s [] tt))
  | no n ↦
      rw (cut_past d c s cur n)
        (cut-IsToken d s (cur ++ c ∷ []) (All-append (λ x. x ≢ d) cur (c ∷ []) h (n, tt)))
]

-- Every token is a non-empty text without the delimiter.
pub tokens-IsToken : (d : ℕ) (s : Bytes) → All (IsToken d) (tokens d s)
unfolding tokens
tokens-IsToken d s = cut-IsToken d s [] tt
