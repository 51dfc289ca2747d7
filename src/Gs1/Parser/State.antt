-- ===== src/Gs1/Parser/State.antt =====
-- reborn_protocol/gs1/parser.py: `Parser`, its state and the helpers on tokens. The state holds the
-- tokens from `self.i` on, up to the EOF that `tokenize` puts behind them; `self.i = mark` gives
-- the tokens of an earlier state back.
use reborn_protocol.Base.{
  ℕ, zero, suc, ◌-◌, List, [], ◌∷◌, ◌++◌, Bool, true, false, not, ◌&&◌, Option, none, some, length,
  ◌==◌, if◌then◌else◌,
}
use reborn_protocol.Gs1.Csv.{Text}
use reborn_protocol.Gs1.Tokens.{
  TokenType, Token, among, eof, end, identifier, token_brace_left, token_brace_right, same_text,
}

-- What a ParseError says.
pub data Message : Type 0 where
  expected : TokenType → Message
  expected_end expected_expression expected_case expected_colon expected_range_end
        expected_parameter :
      Message

pub record ParseError : Type 0 where
  pub message : Message
  pub tok : Token

pub record ParserState : Type 0 where
  pub rest : List Token
  pub recover : Bool
  pub errors : List ParseError
  pub parsing_case_label : Bool

-- A method returns or raises a ParseError; `stuck` is the model's fuel running out. `overflow` is the
-- OverflowError of a hexadecimal literal that no float can hold, which nothing catches.
pub data Outcome (A : Type 0) : Type 0 where
  ok : A → ParserState → Outcome A
  raised : ParseError → ParserState → Outcome A
  stuck : Outcome A
  overflow : Text → Outcome A

abbrev pub Parse : Type 0 → Type 0
Parse A = ParserState → Outcome A

unfoldable pub bind : {A B : Type 0} → Outcome A → (A → Parse B) → Outcome B
bind (ok a s) f = f a s
bind (raised e s) f = raised e s
bind stuck f = stuck
bind (overflow t) f = overflow t

module _ {A : Type 0} where
  unfoldable pub pure : A → Parse A
  pure a s = ok a s

  abbrev pub out_of_fuel : Parse A
  out_of_fuel s = stuck

infixl 1 ◌>>=◌ ◌>>◌
unfoldable pub ◌>>=◌ : {A B : Type 0} → Parse A → (A → Parse B) → Parse B
m >>= f = λ s. bind (m s) f

abbrev pub ◌>>◌ : {A B : Type 0} → Parse A → Parse B → Parse B
m >> k = m >>= λ _. k

abbrev pub eof_token : Token
eof_token = record { type = eof; text = [] }

-- `self.peek()`, and `self.peek(1)`, `self.peek(2)` by `drop`.
abbrev pub first_of : List Token → Token
first_of [] = eof_token
first_of (t ∷ ts) = t

abbrev pub rest_of : List Token → List Token
rest_of [] = []
rest_of (t ∷ ts) = ts

-- What `next` leaves: it stays at an EOF.
abbrev pub after_next : List Token → List Token
after_next [] = []
after_next (t ∷ ts) = if among t.type (eof ∷ []) then t ∷ ts else ts

abbrev pub advance : ParserState → ParserState
advance s = record s { rest = after_next s.rest }

unfoldable pub next : Parse Token
next s = ok (first_of s.rest) (advance s)

-- `raise ParseError(message, self.peek())`
unfoldable pub raise : {A : Type 0} → Message → Parse A
raise m s = raised (record { message = m; tok = first_of s.rest }) s

module _ {A : Type 0} where
  -- `if self.at(*types):`
  unfoldable pub if_at : List TokenType → Parse A → Parse A → Parse A
  if_at types hit miss s = if among (first_of s.rest).type types then hit s else miss s

  -- `if self.at(*types): t = self.next()`, which `accept` is for one type.
  unfoldable pub if_next : List TokenType → (Token → Parse A) → Parse A → Parse A
  if_next types hit miss s =
      if among (first_of s.rest).type types then hit (first_of s.rest) (advance s) else miss s

  -- `try:` a part of the parse that may give up; `self.i = mark` where it does or raises.
  unfoldable pub attempt : Parse (Option A) → Parse (Option A)
  attempt m s = elim (m s) [
    | ok r s' ↦ elim r [ some a ↦ ok (some a) s' | none ↦ ok none (record s' { rest = s.rest }) ]
    | raised e s' ↦ ok none (record s' { rest = s.rest })
    | stuck ↦ stuck
    | overflow t ↦ overflow t
  ]

  -- A `while` loop: the body gives its variable back with `some`, and leaves with `none`.
  unfoldable pub repeat : ℕ → (A → Parse (Option A)) → A → Parse A
  repeat zero body a s = stuck
  repeat (suc fuel) body a s = elim (body a s) [
    | ok r s' ↦ elim r [ some a' ↦ repeat fuel body a' s' | none ↦ ok a s' ]
    | raised e s' ↦ raised e s'
    | stuck ↦ stuck
    | overflow t ↦ overflow t
  ]

unfoldable pub eat : TokenType → Parse Token
eat t = if_next (t ∷ []) pure (raise (expected t))

-- `while self.accept(t): pass`
unfoldable pub skip : ℕ → TokenType → Parse (Unit {0})
skip fuel t = repeat fuel (λ u. if_next (t ∷ []) (λ _. pure (some tt)) (pure none)) tt

-- `_at_word`
abbrev pub is_word : List Text → Token → Bool
is_word [] t = false
is_word (w ∷ ws) t =
    if among t.type (identifier ∷ []) && same_text t.text w then true else is_word ws t

-- `_synchronize`, at a depth of braces.
unfoldable pub synchronize : ℕ → List Token → List Token
synchronize depth [] = []
synchronize depth (t ∷ ts) =
    let deeper = synchronize (suc depth) ts in
    let out = synchronize (depth - 1) ts in
    let on = synchronize depth ts in
    if among t.type (eof ∷ [])
    then t ∷ ts
    else if among t.type (token_brace_left ∷ [])
    then deeper
    else if among t.type (token_brace_right ∷ [])
    then (if depth == 0 then t ∷ ts else if depth == 1 then ts else out)
    else if among t.type (end ∷ []) && (depth == 0)
    then ts
    else on

-- `_discard_switch_body`
unfoldable pub discard_switch_body : ℕ → List Token → List Token
discard_switch_body zero ts = ts
discard_switch_body (suc depth) [] = []
discard_switch_body (suc depth) (t ∷ ts) =
    let deeper = discard_switch_body (suc (suc depth)) ts in
    let out = discard_switch_body depth ts in
    let on = discard_switch_body (suc depth) ts in
    if among t.type (eof ∷ [])
    then t ∷ ts
    else if among t.type (token_brace_left ∷ [])
    then deeper
    else if among t.type (token_brace_right ∷ [])
    then out
    else on

-- `except ParseError`: keep the error, and go on behind the statement that failed. At least one
-- token is taken.
abbrev pub recovered : List Token → ParseError → ParserState → ParserState
recovered before e s =
    let s' = record s { errors = s.errors ++ e ∷ [] } in
    let at = if length s.rest == length before then after_next s.rest else s.rest in
    record s' { rest = synchronize 0 at }

-- `try:` a statement and append it.
unfoldable pub recovering : {A : Type 0} → Parse A → List A → Parse (Option (List A))
recovering statement body s = elim (statement s) [
  | ok a s' ↦ ok (some (body ++ a ∷ [])) s'
  | raised e s' ↦ if not s'.recover then raised e s' else ok (some body) (recovered s.rest e s')
  | stuck ↦ stuck
  | overflow t ↦ overflow t
]
