-- ===== src/Log/Prefix.antt =====
-- crates/core/src/log_line_prefix.rs: the database name that a `log_line_prefix` puts on a line.
use pg_plansight.Prelude.{
  ℕ, Bool, true, false, ◌||◌, Option, none, some, List, [], ◌∷◌, ◌++◌, ◌==◌, if◌then◌else◌,
  and_then, length, bytes_eq,
}
use mathlib.Core.Option
use Prim.Native.String.{String}
use pg_plansight.Scan.Plain.{codes}
use pg_plansight.Scan.Verdict.{is_ascii_digit, any}
use pg_plansight.Log.{Text, trim, strip_prefix}

pub data Token : Type 0 where
  literal : ℕ → Token
  escape : ℕ → Bool → Token

-- The errors, without their texts. `bad_pattern` is one of the regular expression's compiler.
pub data PrefixError : Type 0 where
  no_timestamp : PrefixError
  unsupported : ℕ → PrefixError
  lone_percent : PrefixError
  bad_pattern : PrefixError

pub data Result (A : Type 0) : Type 0 where
  ok : A → Result A
  err : PrefixError → Result A

abbrev pub percent : ℕ
percent = b'%'

-- What may stand between the percent sign and the letter.
abbrev pub is_padding : ℕ → Bool
is_padding c = c == b'-' || is_ascii_digit c

abbrev pub known_codes : List ℕ
known_codes = codes "audrhbpPtmnieclsvxQ"

abbrev pub is_code : ℕ → Bool
is_code c = any (λ k. k == c) known_codes

-- Where the loop of `tokenize` is: between tokens, or behind a percent sign.
pub data Mode : Type 0 where
  plain : Mode
  escaped : Bool → Mode

-- What one character does there.
pub data Step : Type 0 where
  shift : Mode → Step
  emit : Token → Step
  fail : PrefixError → Step

unfoldable pub read_code : ℕ → Bool → Step
read_code c padded =
    if c == percent
    then emit (literal percent)
    else if is_code c
    then emit (escape c padded)
    else if c == b'q'
    then shift plain
    else fail (unsupported c)

unfoldable pub read_char : Mode → ℕ → Step
read_char plain c = if c == percent then shift (escaped false) else emit (literal c)
read_char (escaped padded) c = if is_padding c then shift (escaped true) else read_code c padded

abbrev pub cons_token : Token → Result (List Token) → Result (List Token)
cons_token token (ok tokens) = ok (token ∷ tokens)
cons_token token (err e) = err e

abbrev pub continue : Step → (Mode → Result (List Token)) → Result (List Token)
continue (shift mode) rest = rest mode
continue (emit token) rest = cons_token token (rest plain)
continue (fail e) rest = err e

unfoldable pub tokenize_from : Text → Mode → Result (List Token)
tokenize_from [] plain = ok []
tokenize_from [] (escaped padded) = err lone_percent
tokenize_from (c ∷ cs) mode = continue (read_char mode c) (tokenize_from cs)

unfoldable pub tokenize : Text → Result (List Token)
tokenize format = tokenize_from format plain

abbrev pub is_literal : List Token → Bool
is_literal (literal c ∷ tokens) = true
is_literal (escape c padded ∷ tokens) = false
is_literal [] = false

abbrev pub timestamp_pattern : Text
timestamp_pattern =
    codes "\\d{4}-\\d{2}-\\d{2} \\d{2}:\\d{2}:\\d{2}(?:\\.\\d+)?(?: [A-Z+\\-][\\w:]*)?"

abbrev pub one_of : String → ℕ → Bool
one_of letters code = any (λ k. k == code) (codes letters)

-- The pattern of an escape, none where the code panics (`unreachable!`).
unfoldable pub group_of : ℕ → Text → Option Text
group_of code free_text =
    if code == b'd'
    then some (codes "(?P<db>" ++ (free_text ++ codes ")"))
    else if one_of "aurhbi" code
    then some (codes "(?:" ++ (free_text ++ codes ")"))
    else if one_of "plx" code
    then some (codes "\\d+")
    else if code == b'P'
    then some (codes "\\d*")
    else if code == b'Q'
    then some (codes "-?\\d+")
    else if code == b'e'
    then some (codes "\\w{5}")
    else if code == b'c'
    then some (codes "[0-9a-f]+\\.[0-9a-f]+")
    else if code == b'v'
    then some (codes "\\S*")
    else if one_of "stm" code
    then some timestamp_pattern
    else if code == b'n'
    then some (codes "\\d+\\.\\d+")
    else none

abbrev pub pad : Bool → Text → Text
pad true group = codes "\\s*" ++ (group ++ codes "\\s*")
pad false group = group

-- `regex` stands for the regex crate: its escaping of a character, its compiler, and the text of
-- the group `db` of a match.
pub record Regex : Type 1 where
  pub Compiled : Type 0
  pub escape_char : ℕ → Text
  pub compile : Text → Option Compiled
  pub db_group : Compiled → Text → Option Text

module _ (regex : Regex) where
  open regex use {Compiled, escape_char, compile, db_group}

  unfoldable pub piece : Token → List Token → Option Text
  piece (literal c) rest = some (escape_char c)
  piece (escape code padded) rest =
      let free_text = if is_literal rest then codes ".*?" else codes "\\S*" in
      Option.map (pad padded) (group_of code free_text)

  abbrev pub join : Option Text → Option Text → Option Text
  join (some a) (some b) = some (a ++ b)
  join (some a) none = none
  join none b = none

  unfoldable pub pieces : List Token → Option Text
  pieces [] = some []
  pieces (token ∷ tokens) = join (piece token tokens) (pieces tokens)

  unfoldable pub tail_pattern : List Token → Option Text
  tail_pattern tokens = Option.map (λ pattern. b'^' ∷ pattern) (pieces tokens)

  pub record LogLinePrefix : Type 0 where
    pub format : Text
    pub tail : Option Compiled

  abbrev pub is_database : Token → Bool
  is_database (literal c) = false
  is_database (escape code padded) = code == b'd'

  abbrev pub compiled : Text → Option Compiled → Result LogLinePrefix
  compiled format none = err bad_pattern
  compiled format (some tail) = ok record { format = format; tail = some tail }

  -- A panic of `tail_pattern` is none.
  abbrev pub with_tail : Text → Option Text → Option (Result LogLinePrefix)
  with_tail format none = none
  with_tail format (some pattern) = some (compiled format (compile pattern))

  unfoldable pub of_tokens : Text → Result (List Token) → Option (Result LogLinePrefix)
  of_tokens format (err e) = some (err e)
  of_tokens format (ok tokens) =
      if any is_database tokens
      then with_tail format (tail_pattern tokens)
      else some (ok record { format = format; tail = none })

  abbrev pub or_else : Option Text → Option Text → Option Text
  or_else none other = other
  or_else (some text) other = some text

  abbrev pub of_rest : Text → Option Text → Option (Result LogLinePrefix)
  of_rest format none = some (err no_timestamp)
  of_rest format (some rest) = of_tokens format (tokenize rest)

  -- `LogLinePrefix::parse`
  unfoldable pub parse : Text → Option (Result LogLinePrefix)
  parse format =
      of_rest format (or_else (strip_prefix (codes "%m") format) (strip_prefix (codes "%t") format))

  abbrev pub known_name : Text → Option Text
  known_name name =
      if length name == 0 || bytes_eq name (codes "[unknown]") then none else some name

  abbrev pub match_tail : Option Compiled → Text → Option Text
  match_tail none message = none
  match_tail (some tail) message = and_then (db_group tail message) (λ name. known_name (trim name))

  unfoldable pub database : LogLinePrefix → Text → Option Text
  database prefix message = match_tail prefix.tail message
