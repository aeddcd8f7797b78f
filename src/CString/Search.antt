-- ===== src/CString/Search.antt =====
-- `strrchr`: the last occurrence of a byte cuts a text in two.
use remote_file_system.Prelude.{
  ℕ, ◌≡◌, [], ◌∷◌, ◌++◌, Bytes, Lacks, Option, none, some, ◌==◌, arith, true, false, if◌then◌else◌,
  sym, ◌∙◌, Option-cases, inl, inr,
}

-- `some (before, after)`: the text before the last `b` and the text after it; `none` if there is no
-- `b`, where `strrchr` returns NULL.
unfoldable pub strrchr : ℕ → Bytes → Option (Bytes × Bytes)
strrchr b [] = none
strrchr b (c ∷ s) = elim (strrchr b s) [
  | some (before, after) ↦ some (c ∷ before, after)
  | none ↦ elim (c == b) [ true ↦ some ([], s) | false ↦ none ]
]

module _ (b c : ℕ) (s : Bytes) where
  strrchr_later :
      {before after : Bytes}
      → strrchr b s ≡ some (before, after)
      → strrchr b (c ∷ s) ≡ some (c ∷ before, after)
  unfolding strrchr
  strrchr_later h = rw h

  strrchr_here : strrchr b s ≡ none → strrchr b (c ∷ s) ≡ (if c == b then some ([], s) else none)
  unfolding strrchr
  strrchr_here h = rw h (ground arith)

-- No occurrence is found exactly where there is none.
pub strrchr-none : (b : ℕ) (s : Bytes) → strrchr b s ≡ none → Lacks b s
unfolding strrchr
strrchr-none b [] h = tt
strrchr-none b (c ∷ s) h = ground (arith, strrchr-none b s)

module _ (b c : ℕ) (s before after : Bytes) (h : strrchr b (c ∷ s) ≡ some (before, after)) where
  split_here : strrchr b s ≡ none → (c ∷ s ≡ before ++ b ∷ after) × Lacks b after
  split_here e =
      let k = sym (strrchr_here b c s e) ∙ h in let lacks = strrchr-none b s e in grind arith

  split_later :
      (u v : Bytes)
      → strrchr b s ≡ some (u, v)
      → (s ≡ u ++ b ∷ v) × Lacks b v
      → (c ∷ s ≡ before ++ b ∷ after) × Lacks b after
  split_later u v e rest = let k = sym (strrchr_later b c s e) ∙ h in ground arith

-- The two parts around the byte spell the text, and the byte does not occur behind it.
pub strrchr-some :
    (b : ℕ) (s before after : Bytes)
    → strrchr b s ≡ some (before, after)
    → (s ≡ before ++ b ∷ after) × Lacks b after
strrchr-some b [] before after h = unfold strrchr in cc
strrchr-some b (c ∷ s) before after h = elim (Option-cases (strrchr b s)) [
  | inl e ↦ split_here b c s before after h e
  | inr ((u, v), e) ↦ split_later b c s before after h u v e (strrchr-some b s u v e)
]
