-- ===== src/Logging/Redact.antt =====
-- routstr/core/logging.py, `SecurityFilter`: its patterns, on texts of ASCII characters.
pub mod Laws
use Prim.Native.Char.{code}
use routstr_core.Prelude.{
  ℕ, zero, suc, ◌+◌, ◌==◌, leb, ltb, Bool, ◌&&◌, ◌||◌, not, Option, none, some, List, [], ◌∷◌,
  String, str_append, str_contains, if◌then◌else◌,
}
use routstr_core.Logging.{LogRecord}

abbrev between : ℕ → ℕ → ℕ → Bool
between lo hi c = leb lo c && leb c hi

abbrev pub is_letter : ℕ → Bool
is_letter c = between b'a' b'z' c || between b'A' b'Z' c

-- `[a-zA-Z0-9_\-\.]` and `[a-zA-Z0-9_\-\.=/+]`
abbrev pub is_plain : ℕ → Bool
is_plain c = is_letter c || between b'0' b'9' c || c == b'_' || c == b'-' || c == b'.'

abbrev pub is_token : ℕ → Bool
is_token c = is_plain c || c == b'=' || c == b'/' || c == b'+'

-- `\s` and `[:\s=]`
abbrev pub is_space : ℕ → Bool
is_space c = c == 32 || between 9 13 c || between 28 31 c

abbrev pub is_separator : ℕ → Bool
is_separator c = c == b':' || is_space c || c == b'='

abbrev pub is_quote : ℕ → Bool
is_quote c = c == 34 || c == 39

abbrev lower : ℕ → ℕ
lower c = if between b'A' b'Z' c then c + 32 else c

-- what follows a text, its case ignored
abbrev pub after_word : String → String → Option String
after_word String.[] s = some s
after_word (String.◌∷◌ k ks) String.[] = none
after_word (String.◌∷◌ k ks) (String.◌∷◌ c s) =
    if lower (code k) == lower (code c) then after_word ks s else none

-- how many characters of a class stand at the front, and what follows them
abbrev pub span : (ℕ → Bool) → String → ℕ × String
span p String.[] = (0, "")
span p (String.◌∷◌ c s) =
    let r = span p s in if p (code c) then (suc r.0, r.1) else (0, String.◌∷◌ c s)

-- one or more of a class, and then what `next` asks for
abbrev pub some_of : (ℕ → Bool) → (String → Option String) → String → Option String
some_of p next s = let (n, rest) = span p s in if ltb 0 n then next rest else none

abbrev pub chain : (String → Option String) → Option String → Option String
chain f none = none
chain f (some s) = f s

abbrev pub quote_then : (String → Option String) → String → Option String
quote_then next String.[] = none
quote_then next (String.◌∷◌ c s) = if is_quote (code c) then next s else none

-- The four patterns: what follows a match at the front of a text. The classes that follow each other
-- have no character in common, but for those of the last one, whose letters may give one back.
abbrev key_value : String → String → Option String
key_value key s = chain (some_of is_separator (some_of is_plain some)) (after_word key s)

abbrev key_quoted : String → String → Option String
key_quoted key s =
    chain (some_of is_separator (quote_then (some_of (λ c. not (is_quote c)) (quote_then some))))
      (after_word key s)

abbrev bearer_token : String → Option String
bearer_token s = chain (some_of is_space (some_of is_plain some)) (after_word "Bearer" s)

abbrev pub letters_and_token : String → Option String
letters_and_token s =
    let (n, rest) = span is_letter s in
    let (m, rest') = span is_token rest in
    if ltb 0 n && (ltb 0 m || ltb 1 n) then some rest' else none

abbrev cashu_token : String → Option String
cashu_token s = chain letters_and_token (after_word "cashu" s)

abbrev pub size : String → ℕ
size String.[] = 0
size (String.◌∷◌ c s) = suc (size s)

-- `re.sub`, on no more steps than the text has characters
unfoldable pub substituted : (String → Option String) → String → ℕ → String → String
substituted pattern by zero s = s
substituted pattern by (suc n) String.[] = ""
substituted pattern by (suc n) (String.◌∷◌ c s) = elim (pattern (String.◌∷◌ c s)) [
  | none ↦ String.◌∷◌ c (substituted pattern by n s)
  | some rest ↦ str_append by (substituted pattern by n rest)
]

abbrev pub replaced : (String → Option String) → String → String → String
replaced pattern by s = substituted pattern by (size s) s

abbrev pub patterns : String → List (String → Option String)
patterns key = key_value key ∷ key_quoted key ∷ bearer_token ∷ cashu_token ∷ []

abbrev pub replaced_all : List (String → Option String) → String → String → String
replaced_all [] by message = message
replaced_all (p ∷ ps) by message = replaced_all ps by (replaced p by message)

abbrev pub redact_key : String → String → String
redact_key key message = replaced_all (patterns key) (str_append key ": [REDACTED]") message

-- The keys are a set, whose order is its own. Each is looked for in what the others left.
unfoldable pub redact : (String → String) → List String → String → String
unfolding substituted
redact lower_case [] message = message
redact lower_case (key ∷ keys) message =
    redact lower_case keys
      (if str_contains key (lower_case message) then redact_key key message else message)

abbrev pub sensitive_keys : List String
sensitive_keys =
    "authorization" ∷ "x-cashu" ∷ "bearer" ∷ "token" ∷ "key" ∷ "secret" ∷ "password" ∷ "cashu_token"
    ∷ "bearer_key" ∷ "api_key" ∷ "nsec" ∷ "upstream_api_key" ∷ "refund_address" ∷ []

-- `SecurityFilter`: only the message is filtered.
abbrev pub security_filter : (String → String) → List String → LogRecord → LogRecord
security_filter lower_case keys r = record r { message = redact lower_case keys r.message }
