-- ===== src/Log/Tokens.antt =====
-- The tokens of crates/core/src/log_line_prefix.rs: written out and read back, and the patterns
-- that are made of them.
use pg_plansight.Prelude.{
  ℕ, ◌≡◌, refl, sym, ap, subst, ◌∙◌, ◌≢◌, inl, inr, Bool, true, false, ◌&&◌, not, Option, none,
  some, List, [], ◌∷◌, ◌++◌, arith, ◌==◌, if◌then◌else◌, ==→≡, Bool-cases, if_true, if_false,
  &&_true,
}
use mathlib.Core.Bool.{true≢false}
use mathlib.Core.Option
use mathlib.Core.Option.{none-ne-some, some-injective}
use pg_plansight.Scan.Verdict.{any, all}
use pg_plansight.Log.{Text}
use pg_plansight.Log.Prefix.{
  Token, literal, escape, Result, ok, err, percent, is_padding, known_codes, is_code, Step,
  continue, join, with_tail, of_rest, Mode, plain, escaped, shift, emit, fail, read_code, read_char,
  cons_token, tokenize_from, tokenize, group_of, pad, Regex, piece, pieces, tail_pattern,
  is_database, of_tokens, parse,
}

-- A token as a `log_line_prefix` writes it; the width of a padding is not kept.
abbrev pub render_token : Token → Text
render_token (literal c) = if c == percent then percent ∷ percent ∷ [] else c ∷ []
render_token (escape code true) = percent ∷ b'-' ∷ code ∷ []
render_token (escape code false) = percent ∷ code ∷ []

abbrev pub render : List Token → Text
render [] = []
render (token ∷ tokens) = render_token token ++ render tokens

-- The escapes are ones that PostgreSQL defines.
abbrev pub Known : List Token → Type 0
Known [] = Unit
Known (literal c ∷ tokens) = Known tokens
Known (escape code padded ∷ tokens) = (is_code code ≡ true) × Known tokens

-- What holds of each of the codes holds of one of them.
any-all :
    (P : ℕ → Bool) (ks : List ℕ) (c : ℕ)
    → all P ks ≡ true
    → any (λ k. k == c) ks ≡ true
    → P c ≡ true
any-all P [] c h found = absurd (true≢false (sym found))
any-all P (k ∷ ks) c h found =
    let (here, rest) = &&_true (P k) (all P ks) h in
    elim (Bool-cases (k == c)) [
      | inl e ↦ subst (λ x. P x ≡ true) (==→≡ k c e) here
      | inr e ↦ any-all P ks c rest (ground arith)
    ]

abbrev stands_alone : ℕ → Bool
stands_alone c = not (is_padding c) && not (c == percent)

code_alone : (c : ℕ) → is_code c ≡ true → (is_padding c ≡ false) × ((c == percent) ≡ false)
code_alone c known =
    let alone = any-all stands_alone known_codes c refl known in
    let (a, b) = &&_true (not (is_padding c)) (not (c == percent)) alone in
    (ground arith, ground arith)

read-code :
    (c : ℕ) (padded : Bool) (cs : Text)
    → is_code c ≡ true
    → tokenize_from (c ∷ cs) (escaped padded)
      ≡ cons_token (escape c padded) (tokenize_from cs plain)
unfolding tokenize_from read_char read_code
read-code c padded cs known =
    let (alone, other) = code_alone c known in rw (alone, other, known) refl

tokenize_from-render_token :
    (token : Token) (cs : Text)
    → Known (token ∷ [])
    → tokenize_from (render_token token ++ cs) plain ≡ cons_token token (tokenize_from cs plain)
unfolding tokenize_from read_char read_code
tokenize_from-render_token (literal c) cs known = elim (Bool-cases (c == percent)) [
  | inl e ↦ rw (e, ==→≡ c percent e) refl
  | inr e ↦ rw e (rw e refl)
]
tokenize_from-render_token (escape code true) cs (known, end) = read-code code true cs known
tokenize_from-render_token (escape code false) cs (known, end) = read-code code false cs known

-- Every list of known tokens, written out as a format, is read back as it was.
pub tokenize-render : (tokens : List Token) → Known tokens → tokenize (render tokens) ≡ ok tokens
unfolding tokenize tokenize_from
tokenize-render [] known = refl
tokenize-render (literal c ∷ tokens) known =
    tokenize_from-render_token (literal c) (render tokens) tt
    ∙ ap (cons_token (literal c)) (tokenize-render tokens known)
tokenize-render (escape code padded ∷ tokens) (known, rest) =
    tokenize_from-render_token (escape code padded) (render tokens) (known, tt)
    ∙ ap (cons_token (escape code padded)) (tokenize-render tokens rest)

abbrev Emits : Step → Type 0
Emits (shift mode) = Unit
Emits (emit token) = Known (token ∷ [])
Emits (fail e) = Unit

read_code-Emits : (c : ℕ) (padded : Bool) → Emits (read_code c padded)
unfolding read_code
read_code-Emits c padded = elim (Bool-cases (c == percent)) [
  | inl e ↦ rw e tt
  | inr e ↦ elim (Bool-cases (is_code c)) [
    | inl f ↦ rw (e, f) (f, tt)
    | inr f ↦ elim (Bool-cases (c == b'q')) [ inl g ↦ rw (e, f, g) tt | inr g ↦ rw (e, f, g) tt ]
  ]
]

read_char-Emits : (mode : Mode) (c : ℕ) → Emits (read_char mode c)
unfolding read_char
read_char-Emits plain c = elim (Bool-cases (c == percent)) [ inl e ↦ rw e tt | inr e ↦ rw e tt ]
read_char-Emits (escaped padded) c = elim (Bool-cases (is_padding c)) [
  | inl e ↦ rw e tt
  | inr e ↦ rw e (read_code-Emits c padded)
]

abbrev Knows : Result (List Token) → Type 0
Knows (ok tokens) = Known tokens
Knows (err e) = Unit

cons_token-Knows :
    (token : Token) (r : Result (List Token))
    → Known (token ∷ [])
    → Knows r
    → Knows (cons_token token r)
cons_token-Knows (literal c) (ok tokens) known h = h
cons_token-Knows (escape code padded) (ok tokens) (known, end) h = (known, h)
cons_token-Knows token (err e) known h = tt

continue-Knows :
    (step : Step) (rest : Mode → Result (List Token))
    → Emits step
    → ((mode : Mode) → Knows (rest mode))
    → Knows (continue step rest)
continue-Knows (shift mode) rest emits h = h mode
continue-Knows (emit token) rest emits h = cons_token-Knows token (rest plain) emits (h plain)
continue-Knows (fail e) rest emits h = tt

tokenize_from-Knows : (cs : Text) (mode : Mode) → Knows (tokenize_from cs mode)
unfolding tokenize_from
tokenize_from-Knows [] plain = tt
tokenize_from-Knows [] (escaped padded) = tt
tokenize_from-Knows (c ∷ cs) mode =
    continue-Knows (read_char mode c) (tokenize_from cs) (read_char-Emits mode c)
      (tokenize_from-Knows cs)

abbrev is_some : Option Text → Bool
is_some none = false
is_some (some text) = true

group_of-is_code :
    (code : ℕ) (free_text : Text) → is_code code ≡ true → is_some (group_of code free_text) ≡ true
unfolding group_of
group_of-is_code code free_text known =
    any-all (λ k. is_some (group_of k free_text)) known_codes code refl known

map-is_some :
    (f : Text → Text) (o : Option Text) → is_some o ≡ true → is_some (Option.map f o) ≡ true
map-is_some f none e = e
map-is_some f (some text) e = refl

module _ (regex : Regex) where
  join-is_some :
      (a b : Option Text) → is_some a ≡ true → is_some b ≡ true → is_some (join regex a b) ≡ true
  join-is_some none b e f = e
  join-is_some (some a) none e f = f
  join-is_some (some a) (some b) e f = refl

  piece-Known :
      (token : Token) (rest : List Token)
      → Known (token ∷ [])
      → is_some (piece regex token rest) ≡ true
  unfolding piece
  piece-Known (literal c) rest known = refl
  piece-Known (escape code padded) rest (known, end) =
      map-is_some (pad padded) _ (group_of-is_code code _ known)

  pieces-Known : (tokens : List Token) → Known tokens → is_some (pieces regex tokens) ≡ true
  unfolding pieces
  pieces-Known [] known = refl
  pieces-Known (literal c ∷ tokens) known =
      join-is_some _ _ (piece-Known (literal c) tokens tt) (pieces-Known tokens known)
  pieces-Known (escape code padded ∷ tokens) (known, rest) =
      join-is_some _ _ (piece-Known (escape code padded) tokens (known, tt))
        (pieces-Known tokens rest)

  tail_pattern-Known :
      (tokens : List Token) → Known tokens → is_some (tail_pattern regex tokens) ≡ true
  unfolding tail_pattern
  tail_pattern-Known tokens known = map-is_some (◌∷◌ b'^') _ (pieces-Known tokens known)

  with_tail_ne :
      (format : Text) (pattern : Option Text)
      → is_some pattern ≡ true
      → with_tail regex format pattern ≢ none
  with_tail_ne format none h e = true≢false (sym h)
  with_tail_ne format (some pattern) h e = none-ne-some _ (sym e)

  of_tokens_ne :
      (format : Text) (r : Result (List Token)) → Knows r → of_tokens regex format r ≢ none
  unfolding of_tokens
  of_tokens_ne format (err x) knows e = none-ne-some _ (sym e)
  of_tokens_ne format (ok tokens) knows e = elim (Bool-cases (any (is_database regex) tokens)) [
    | inl d ↦
        with_tail_ne format (tail_pattern regex tokens) (tail_pattern-Known tokens knows)
          (sym (if_true _ _ d) ∙ e)
    | inr d ↦ none-ne-some _ (sym (sym (if_false _ _ d) ∙ e))
  ]

  of_rest_ne : (format : Text) (rest : Option Text) → of_rest regex format rest ≢ none
  unfolding tokenize
  of_rest_ne format none e = none-ne-some _ (sym e)
  of_rest_ne format (some rest) e =
      of_tokens_ne format (tokenize rest) (tokenize_from-Knows rest plain) e

  -- Compiling a format never reaches the code that is marked unreachable, whatever the format is
  -- and whatever the regular expression compiler does; what `tokenize` accepts is what it gives
  -- again for its tokens written out.
  pub parse_lem :
      (format : Text)
      → (parse regex format ≢ none)
        × ((tokens : List Token)
            → tokenize format ≡ ok tokens
            → tokenize (render tokens) ≡ tokenize format)
  unfolding parse tokenize
  parse_lem format = (
    of_rest_ne format _,
    λ tokens e. tokenize-render tokens (subst Knows e (tokenize_from-Knows format plain)) ∙ sym e,
  )
