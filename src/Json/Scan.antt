-- ===== src/Json/Scan.antt =====
-- xmlrpc-c/src/json.c: what the tokenizer asks of the characters. A pointer into the document is the rest of
-- the document from there, which ends at its NUL.
use xml_rpc.Prelude.{
  ℕ, zero, suc, Bool, true, false, not, ◌&&◌, ◌||◌, [], ◌∷◌, leb, ◌==◌, if◌then◌else◌, Bytes,
}
use xml_rpc.Number.{is_digit, is_space}

-- isxdigit, and isalnum, of the C locale
abbrev pub is_xdigit : ℕ → Bool
is_xdigit c = is_digit c || (leb b'a' c && leb c b'f') || (leb b'A' c && leb c b'F')

abbrev pub is_alnum : ℕ → Bool
is_alnum c = is_digit c || (leb b'a' c && leb c b'z') || (leb b'A' c && leb c b'Z')

-- The letters that may follow a backslash, other than u.
abbrev pub is_simple_escape : ℕ → Bool
is_simple_escape c =
    c == b'"'
    || c == b'\\'
    || c == b'/'
    || c == b'b'
    || c == b'f'
    || c == b'n'
    || c == b'r'
    || c == b't'

-- isInteger
abbrev pub digits_only : Bytes → Bool
digits_only [] = true
digits_only (c ∷ token) = is_digit c && digits_only token

unfoldable pub is_integer : Bytes → Bool
is_integer [] = false
is_integer (c ∷ token) = if c == b'-' then digits_only token else digits_only (c ∷ token)

-- isFloat
unfoldable pub float_scan : Bool → Bool → Bytes → Bool
unfolding is_integer
float_scan seen_period seen_digit [] = seen_digit
float_scan seen_period seen_digit (c ∷ token) = elim (c == b'e') [
  | true ↦ is_integer (c ∷ token)
  | false ↦ elim (c == b'.') [
    | true ↦ not seen_period && float_scan true seen_digit token
    | false ↦ is_digit c && float_scan seen_period true token
  ]
]

unfoldable pub is_float : Bytes → Bool
unfolding float_scan
is_float [] = false
is_float (c ∷ token) =
    if c == b'-' then float_scan false false token else float_scan false false (c ∷ token)

-- isWordChar
abbrev pub is_word_char : ℕ → Bool
is_word_char candidate = is_alnum candidate || candidate == b'.' || candidate == b'-'

unfoldable pub word_end : Bytes → Bytes
word_end [] = []
word_end (c ∷ rest) = if is_word_char c then word_end rest else c ∷ rest

-- xmlrpc_strneq with a token that has no NUL
unfoldable pub is_start_of : Bytes → Bytes → Bool
is_start_of [] word = true
is_start_of (c ∷ token) [] = false
is_start_of (c ∷ token) (d ∷ word) = c == d && is_start_of token word

-- atComment, advancePastWhiteSpace and advancePastComments
abbrev pub at_comment : Bytes → Bool
at_comment [] = false
at_comment (c ∷ []) = false
at_comment (c ∷ d ∷ rest) = c == b'/' && d == b'/'

abbrev pub advance_past_white_space : Bytes → Bytes
advance_past_white_space [] = []
advance_past_white_space (c ∷ rest) = if is_space c then advance_past_white_space rest else c ∷ rest

abbrev pub line_end : Bytes → Bytes
line_end [] = []
line_end (c ∷ rest) = if c == b'\n' then c ∷ rest else line_end rest

-- After a comment there is a newline, or nothing, so that one round is enough.
abbrev pub advance_past_comments : Bytes → Bytes
advance_past_comments rest = if at_comment rest then line_end rest else rest

abbrev pub space_at : Bytes → Bool
space_at [] = false
space_at (c ∷ rest) = is_space c

-- advanceToNextToken; a round passes a character at least.
unfoldable pub advance_to_next_token : ℕ → Bytes → Bytes
advance_to_next_token zero rest = rest
advance_to_next_token (suc fuel) rest = elim (space_at rest || at_comment rest) [
  | true ↦ advance_to_next_token fuel (advance_past_comments (advance_past_white_space rest))
  | false ↦ rest
]
