-- ===== src/Logging/Redact/Laws.antt =====
-- What `SecurityFilter` takes out of a message: `re.sub`, told without its steps.
use Prim.Native.Char.{Char}
use routstr_core.Prelude.{
  not, ◌≡◌, refl, sym, ◌∙◌, ap, arith, ℕ, zero, suc, ◌+◌, ◌≤◌, Bool, Option, Option-cases, none,
  some, List, [], ◌∷◌, All, inl, inr, String, str_append, subst,
}
use routstr_core.Logging.Redact.{
  size, span, after_word, some_of, is_letter, is_token, is_plain, is_space, is_separator, is_quote,
  chain, replaced_all, quote_then, letters_and_token, substituted, replaced, patterns,
}

-- a text and what becomes of it: from left to right, what a pattern matches is replaced by a text, and
-- a character at which it does not match stays
pub data Redacted (p : String → Option String) (by : String) : String → String → Type 0 where
  ended : Redacted p by "" ""
  passed_over :
      (c : Char) (s t : String)
      → p (String.◌∷◌ c s) ≡ none
      → Redacted p by s t
      → Redacted p by (String.◌∷◌ c s) (String.◌∷◌ c t)
  matched :
      (c : Char) (s rest t : String)
      → p (String.◌∷◌ c s) ≡ some rest
      → Redacted p by rest t
      → Redacted p by (String.◌∷◌ c s) (str_append by t)

-- what is left is no longer, or shorter
abbrev Narrows : (String → Option String) → Type 0
Narrows f = (s rest : String) → f s ≡ some rest → size rest ≤ size s

abbrev Consumes : (String → Option String) → Type 0
Consumes f = (s rest : String) → f s ≡ some rest → suc (size rest) ≤ size s

size-span : (p : ℕ → Bool) (s : String) → (span p s).0 + size (span p s).1 ≡ size s
size-span p String.[] = refl
size-span p (String.◌∷◌ c s) = ground (arith, size-span p s)

after_word-Narrows : (k : String) → Narrows (after_word k)
after_word-Narrows String.[] s rest e = ground arith
after_word-Narrows (String.◌∷◌ k ks) String.[] rest e = cc
after_word-Narrows (String.◌∷◌ k ks) (String.◌∷◌ c s) rest e =
    ground (arith, after_word-Narrows ks s rest)

some-Narrows : Narrows some
some-Narrows s rest e = ground arith

some_of-Consumes :
    (p : ℕ → Bool) (next : String → Option String) → Narrows next → Consumes (some_of p next)
some_of-Consumes p next h s rest e = ground (arith, size-span p s, h (span p s).1 rest)

quote_then-Consumes : (next : String → Option String) → Narrows next → Consumes (quote_then next)
quote_then-Consumes next h String.[] rest e = cc
quote_then-Consumes next h (String.◌∷◌ c s) rest e = ground (arith, h s rest)

Consumes-Narrows : (f : String → Option String) → Consumes f → Narrows f
Consumes-Narrows f h s rest e = omega (arith, h s rest e)

letters_and_token-Consumes : Consumes letters_and_token
letters_and_token-Consumes s rest e =
    ground (arith, size-span is_letter s, size-span is_token (span is_letter s).1)

chain-Consumes :
    (k : String) (f : String → Option String)
    → Consumes f
    → Consumes (λ s. chain f (after_word k s))
chain-Consumes k f h s rest e = elim (Option-cases (after_word k s)) [
  | inl bare ↦ ground arith
  | inr (u, found) ↦ ground (arith, after_word-Narrows k s u found, h u rest)
]

substituted-Redacted :
    (p : String → Option String) (by : String) (n : ℕ) (s : String)
    → Consumes p
    → size s ≤ n
    → Redacted p by s (substituted p by n s)
unfolding substituted
substituted-Redacted p by zero String.[] h le = ended
substituted-Redacted p by zero (String.◌∷◌ c s) h le = absurd (omega arith)
substituted-Redacted p by (suc n) String.[] h le = ended
substituted-Redacted p by (suc n) (String.◌∷◌ c s) h le = elim (Option-cases (p (String.◌∷◌ c s))) [
  | inl e ↦
      rw (substituted, e) (passed_over c s _ e (substituted-Redacted p by n s h (omega arith)))
  | inr (rest, e) ↦
      rw (substituted, e)
        (matched c s rest _ e (substituted-Redacted p by n rest h (omega (arith, h _ rest e))))
]

Redacted-unique :
    (p : String → Option String) (by s t u : String) → Redacted p by s t → Redacted p by s u → t ≡ u
Redacted-unique p by String.[] t u ended ended = refl
Redacted-unique p by (String.◌∷◌ c s) t u (passed_over _ _ t' e r) (passed_over _ _ u' e' r') =
    ap (String.◌∷◌ c) (Redacted-unique p by s t' u' r r')
Redacted-unique p by (String.◌∷◌ c s) t u (passed_over _ _ t' e r) (matched _ _ rest u' e' r') = cc
Redacted-unique p by (String.◌∷◌ c s) t u (matched _ _ rest t' e r) (passed_over _ _ u' e' r') = cc
Redacted-unique p by (String.◌∷◌ c s) t u (matched _ _ rest t' e r) (matched _ _ rest' u' e' r') =
    let same : rest' ≡ rest = cc in
    ap (str_append by) (Redacted-unique p by rest t' u' r (subst (λ x. Redacted p by x u') same r'))

-- one pattern after the other
abbrev pub RedactedAll : List (String → Option String) → String → String → String → Type 0
RedactedAll [] by s t = s ≡ t
RedactedAll (p ∷ ps) by s t = (u : String) × Redacted p by s u × RedactedAll ps by u t

patterns-Consumes : (key : String) → All Consumes (patterns key)
patterns-Consumes key =
    let plain = Consumes-Narrows _ (some_of-Consumes is_plain some some-Narrows) in
    let closed = Consumes-Narrows _ (quote_then-Consumes some some-Narrows) in
    let inside = Consumes-Narrows _ (some_of-Consumes (λ c. not (is_quote c)) _ closed) in
    let quoted = Consumes-Narrows _ (quote_then-Consumes _ inside) in
    (
      chain-Consumes key _ (some_of-Consumes is_separator _ plain),
      (
        chain-Consumes key _ (some_of-Consumes is_separator _ quoted),
        (
          chain-Consumes "Bearer" _ (some_of-Consumes is_space _ plain),
          (chain-Consumes "cashu" _ letters_and_token-Consumes, tt),
        ),
      ),
    )

-- A text has enough characters for its replacement to come to its end.
replaced_all-RedactedAll :
    (ps : List (String → Option String)) (by s : String)
    → All Consumes ps
    → RedactedAll ps by s (replaced_all ps by s)
replaced_all-RedactedAll [] by s h = refl
replaced_all-RedactedAll (p ∷ ps) by s (h, hs) = (
  replaced p by s,
  substituted-Redacted p by (size s) s h (omega arith),
  replaced_all-RedactedAll ps by (replaced p by s) hs,
)

RedactedAll-unique :
    (ps : List (String → Option String)) (by s t u : String)
    → RedactedAll ps by s t
    → RedactedAll ps by s u
    → t ≡ u
RedactedAll-unique [] by s t u e e' = sym e ∙ e'
RedactedAll-unique (p ∷ ps) by s t u (v, r, rs) (w, r', rs') =
    RedactedAll-unique ps by v t u rs
      (subst (λ x. RedactedAll ps by x u) (sym (Redacted-unique p by s v w r r')) rs')
