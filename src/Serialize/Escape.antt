-- ===== src/Serialize/Escape.antt =====
-- escapeForXml of xmlrpc-c/src/xmlrpc_serialize.c against a reader of XML character data.
use mathlib.Core.Option
use xml_rpc.Prelude.{
  ℕ, ◌≡◌, refl, ap, ◌∙◌, Bool, true, false, not, ◌&&◌, [], ◌∷◌, ◌++◌, Option, none, some, ◌==◌,
  if◌then◌else◌, Bytes, length, All, All-append, arith, inl, inr, Bool-cases, ==_iff,
}
use xml_rpc.Serialize.{escaped_size, escape_char, escape_for_xml}
use xml_rpc.Value.Structs.Lookup.{same_bytes}

-- The character that a reference stands for, by its name.
abbrev pub reference : Bytes → Option ℕ
reference name =
    if same_bytes name (b'l' ∷ b't' ∷ [])
    then some b'<'
    else if same_bytes name (b'g' ∷ b't' ∷ [])
    then some b'>'
    else if same_bytes name (b'a' ∷ b'm' ∷ b'p' ∷ [])
    then some b'&'
    else if same_bytes name (b'#' ∷ b'x' ∷ b'0' ∷ b'd' ∷ [])
    then some b'\r'
    else none

-- A reader of character data: references are replaced, a `<` ends the data with an error. The
-- first argument is the name read so far of a reference that has begun.
pub read_chars : Option Bytes → Bytes → Option Bytes
read_chars none [] = some []
read_chars (some name) [] = none
read_chars none (c ∷ rest) =
    let inside = read_chars (some []) rest in
    let plain = Option.map (◌∷◌ c) (read_chars none rest) in
    if c == b'&' then inside else if c == b'<' then none else plain
read_chars (some name) (c ∷ rest) =
    let ended : Option Bytes = elim (reference name) [
      | none ↦ none
      | some d ↦ Option.map (◌∷◌ d) (read_chars none rest)
    ] in
    let longer = read_chars (some (name ++ c ∷ [])) rest in if c == b';' then ended else longer

abbrev IsReadBack : ℕ → Type 0
IsReadBack c =
    (rest : Bytes)
    → read_chars none (escape_char c ++ rest) ≡ Option.map (◌∷◌ c) (read_chars none rest)

escaped_chars : IsReadBack b'<' × IsReadBack b'>' × IsReadBack b'&' × IsReadBack b'\r'
unfolding read_chars escape_char
escaped_chars = (λ rest. refl, λ rest. refl, λ rest. refl, λ rest. refl)

plain_char :
    (c : ℕ)
    → (c == b'<') ≡ false
    → (c == b'>') ≡ false
    → (c == b'&') ≡ false
    → (c == b'\r') ≡ false
    → IsReadBack c
unfolding read_chars escape_char
plain_char c lt gt amp cr rest = rw lt (rw gt (rw amp (rw cr (rw amp (rw lt)))))

read_chars-escape_char : (c : ℕ) → IsReadBack c
read_chars-escape_char c = elim (Bool-cases (c == b'<')) [
  | inl e ↦ rw ((==_iff c b'<').0 e) escaped_chars.0
  | inr lt ↦ elim (Bool-cases (c == b'>')) [
    | inl e ↦ rw ((==_iff c b'>').0 e) escaped_chars.1
    | inr gt ↦ elim (Bool-cases (c == b'&')) [
      | inl e ↦ rw ((==_iff c b'&').0 e) escaped_chars.2
      | inr amp ↦ elim (Bool-cases (c == b'\r')) [
        | inl e ↦ rw ((==_iff c b'\r').0 e) escaped_chars.3
        | inr cr ↦ plain_char c lt gt amp cr
      ]
    ]
  ]
]

read_chars-escape_for_xml : (chars : Bytes) → read_chars none (escape_for_xml chars) ≡ some chars
unfolding escape_for_xml
read_chars-escape_for_xml [] = unfold read_chars in refl
read_chars-escape_for_xml (c ∷ chars) =
    read_chars-escape_char c (escape_for_xml chars)
    ∙ ap (Option.map (◌∷◌ c)) (read_chars-escape_for_xml chars)

length-escape_for_xml : (chars : Bytes) → length (escape_for_xml chars) ≡ escaped_size chars
unfolding escape_for_xml escaped_size escape_char
length-escape_for_xml [] = refl
length-escape_for_xml (c ∷ chars) = ground (arith, length-escape_for_xml chars)

-- No markup, and no line end that an XML processor would change.
abbrev pub is_inert : ℕ → Bool
is_inert c = not (c == b'<') && not (c == b'>') && not (c == b'\r')

escape_char-inert : (c : ℕ) → All (λ d. is_inert d ≡ true) (escape_char c)
unfolding escape_char
escape_char-inert c = ground arith

escape_for_xml-inert : (chars : Bytes) → All (λ d. is_inert d ≡ true) (escape_for_xml chars)
unfolding escape_for_xml
escape_for_xml-inert [] = tt
escape_for_xml-inert (c ∷ chars) =
    All-append (λ d. is_inert d ≡ true) (escape_char c) (escape_for_xml chars) (escape_char-inert c)
      (escape_for_xml-inert chars)

-- The escaped text fills exactly the space that is computed for it, has no `<`, `>` or CR in it,
-- and is read as the characters that were escaped.
pub escape_for_xml_lem :
    (chars : Bytes)
    → (length (escape_for_xml chars) ≡ escaped_size chars)
      × All (λ d. is_inert d ≡ true) (escape_for_xml chars)
      × (read_chars none (escape_for_xml chars) ≡ some chars)
escape_for_xml_lem chars =
    (length-escape_for_xml chars, escape_for_xml-inert chars, read_chars-escape_for_xml chars)
