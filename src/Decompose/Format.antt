-- ===== src/Decompose/Format.antt =====
-- xmlrpc-c/src/xmlrpc_decompose.c: from a format string to a decomposition tree. Where the source reads
-- past the NUL of a format string, a NUL is read again; a key that is not given is empty.
use xml_rpc.Prelude.{
  ℕ, zero, suc, ◌+◌, ◌*◌, Bool, true, false, ◌||◌, List, [], ◌∷◌, leb, ◌==◌, if◌then◌else◌, Bytes,
  String, length,
}
use xml_rpc.Fault.{Fault, Result, ok, err, internal_error, faultf, message}
use xml_rpc.Value.{Value}
use xml_rpc.Decompose.{
  Slot, Decomp, skip_decomp, int_decomp, bool_decomp, double_decomp, datetime_t_decomp,
  datetime_8_decomp, string_decomp, wide_string_decomp, bit_string_decomp, nil_decomp, i8_decomp,
  cptr_decomp, value_decomp, array_val_decomp, struct_val_decomp, array_decomp, struct_decomp,
  Decomps, no_decomps, decomp, MbrDecomps, no_mbrs, mbr, decompose_value_with_tree,
}

-- The outcome of a routine that moves on in the format string, which it does also when it fails; the
-- keys are those that are left.
pub data Parsed (A : Type 0) : Type 0 where
  parsed : A → Bytes → List Bytes → Parsed A
  failed : Fault → Bytes → Parsed A

abbrev pub then_parse :
    {A : Type 0} {B : Type 0} → Parsed A → (A → Bytes → List Bytes → Parsed B) → Parsed B
then_parse (parsed a format keys) next = next a format keys
then_parse (failed e format) next = failed e format

abbrev pub fail_at : {A : Type 0} → String → Bytes → Parsed A
fail_at s format = failed (record { code = internal_error; text = message s }) format

-- **formatP
abbrev pub current : Bytes → ℕ
current [] = 0
current (c ∷ format) = c

-- ++*formatP
abbrev pub advance : Bytes → Bytes
advance [] = []
advance (c ∷ format) = format

-- What a format character starts.
pub data Spec : Type 0 where
  leaf_spec : Decomp → Spec
  string_spec wide_string_spec array_spec struct_spec invalid_spec : Spec

unfoldable pub spec_of : ℕ → Spec
spec_of c =
    if c == b'-'
    then leaf_spec skip_decomp
    else if c == b'i'
    then leaf_spec int_decomp
    else if c == b'b'
    then leaf_spec bool_decomp
    else if c == b'd'
    then leaf_spec double_decomp
    else if c == b't'
    then leaf_spec datetime_t_decomp
    else if c == b'8'
    then leaf_spec datetime_8_decomp
    else if c == b's'
    then string_spec
    else if c == b'w'
    then wide_string_spec
    else if c == b'6'
    then leaf_spec bit_string_decomp
    else if c == b'n'
    then leaf_spec nil_decomp
    else if c == b'I'
    then leaf_spec i8_decomp
    else if c == b'p'
    then leaf_spec cptr_decomp
    else if c == b'V'
    then leaf_spec value_decomp
    else if c == b'A'
    then leaf_spec array_val_decomp
    else if c == b'S'
    then leaf_spec struct_val_decomp
    else if c == b'('
    then array_spec
    else if c == b'{'
    then struct_spec
    else invalid_spec

-- processArraySpecTail, and the step past the delimiter; ok is whether there is an asterisk.
unfoldable pub process_array_spec_tail : Bytes → List Bytes → Parsed Bool
process_array_spec_tail format keys =
    if current format == b'*'
    then (if current (advance format) == 0
        then fail_at "missing closing delimiter ('%c')" (advance (advance format))
        else if current (advance format) == b')'
        then parsed true (advance (advance format)) keys
        else fail_at
            "character following '*' in array specification should be the closing delimiter '%c', but is '%c'"
            (advance (advance format)))
    else if current format == 0
    then fail_at "missing closing delimiter ('%c')" (advance format)
    else parsed false (advance format) keys

-- skipAsterisk, and the step past the delimiter
unfoldable pub skip_asterisk : Bytes → List Bytes → Parsed (Unit {0})
skip_asterisk format keys =
    if current format == b'*'
    then (if current (advance format) == 0
        then fail_at "missing closing delimiter ('%c')" (advance (advance format))
        else if current (advance format) == b'}'
        then parsed tt (advance (advance format)) keys
        else fail_at "junk after '*' in the specifier of an array.  First character='%c'"
            (advance (advance format)))
    else fail_at
        "You must put a trailing '*' in the specifiers for struct members to signify it's OK if there are additional members you didn't get."
        (advance format)

-- skipColon, and the step past the colon
unfoldable pub skip_colon : Bytes → List Bytes → Parsed (Unit {0})
skip_colon format keys =
    if current format == 0
    then fail_at "format string ends in the middle of a struct member specifier" format
    else if current format == b'}'
    then fail_at "member list ends in the middle of a member" format
    else if current format == b':'
    then parsed tt (advance format) keys
    else fail_at
        "In a struct specifier, '%c' found where a colon (':') separating key and value was expected."
        format

-- skipComma, which runs also when the member before it has failed
unfoldable pub skip_comma : Parsed Decomp → Parsed Decomp
skip_comma (parsed d format keys) =
    if current format == 0 || current format == b'}'
    then parsed d format keys
    else if current format == b','
    then parsed d (advance format) keys
    else fail_at "'%c' where we expected a ',' to separate struct members" format
skip_comma (failed e format) =
    if current format == 0 || current format == b'}'
    then failed e format
    else if current format == b','
    then failed e (advance format)
    else fail_at "'%c' where we expected a ',' to separate struct members" format

-- va_arg for a key
abbrev pub next_key : List Bytes → Bytes
next_key [] = []
next_key (key ∷ keys) = key

abbrev pub later_keys : List Bytes → List Bytes
later_keys [] = []
later_keys (key ∷ keys) = keys

-- A failure inside of an array or a struct: the step past the delimiter is taken all the same.
abbrev pub skip_closing : {A : Type 0} → Parsed A → Parsed A
skip_closing (parsed a format keys) = parsed a format keys
skip_closing (failed e format) = failed e (advance format)

unfoldable mutual
  unfolding spec_of process_array_spec_tail skip_asterisk skip_colon skip_comma

  -- createDecompTreeNext
  pub create_decomp_tree_next : ℕ → Bytes → List Bytes → Parsed Decomp
  create_decomp_tree_next zero format keys = fail_at "out of fuel" format
  create_decomp_tree_next (suc fuel) format keys = elim (spec_of (current format)) [
    | leaf_spec d ↦ parsed d (advance format) keys
    | string_spec ↦
        if current (advance format) == b'#'
        then parsed (string_decomp true) (advance (advance format)) keys
        else parsed (string_decomp false) (advance format) keys
    | wide_string_spec ↦
        if current (advance format) == b'#'
        then parsed (wide_string_decomp true) (advance (advance format)) keys
        else parsed (wide_string_decomp false) (advance format) keys
    | array_spec ↦
        then_parse (build_array_decomp_branch fuel 0 (advance format) keys)
          (λ items format' keys'. parsed (array_decomp items.0 items.1) format' keys')
    | struct_spec ↦
        then_parse (build_struct_decomp_branch fuel 0 (advance format) keys)
          (λ members format' keys'. parsed (struct_decomp members) format' keys')
    | invalid_spec ↦ fail_at "Invalid format character '%c'" (advance format)
  ]

  -- buildArrayDecompBranch, after so many items, and the step past the delimiter
  pub build_array_decomp_branch : ℕ → ℕ → Bytes → List Bytes → Parsed (Bool × Decomps)
  build_array_decomp_branch zero cnt format keys = fail_at "out of fuel" format
  build_array_decomp_branch (suc fuel) cnt format keys =
      elim (current format == 0 || current format == b')' || current format == b'*') [
        | true ↦
            then_parse (process_array_spec_tail format keys)
              (λ excess format' keys'. parsed (excess, no_decomps) format' keys')
        | false ↦ elim (leb 16 cnt) [
          | true ↦
              fail_at
                "Too many array items in format string.  The most items you can have for an array in a format string is %u."
                (advance format)
          | false ↦
              then_parse (skip_closing (create_decomp_tree_next fuel format keys))
                (λ d format' keys'.
                  then_parse (build_array_decomp_branch fuel (cnt + 1) format' keys')
                    (λ items format'' keys''. parsed (items.0, decomp d items.1) format'' keys''))
        ]
      ]

  -- buildStructDecompBranch, after so many members, and the step past the delimiter
  pub build_struct_decomp_branch : ℕ → ℕ → Bytes → List Bytes → Parsed MbrDecomps
  build_struct_decomp_branch zero cnt format keys = fail_at "out of fuel" format
  build_struct_decomp_branch (suc fuel) cnt format keys =
      elim (current format == 0 || current format == b'}' || current format == b'*') [
        | true ↦
            then_parse (skip_asterisk format keys) (λ _ format' keys'. parsed no_mbrs format' keys')
        | false ↦ elim (leb 16 cnt) [
          | true ↦
              fail_at
                "Too many structure members in format string.  The most members you can specify in a format string is %u."
                (advance format)
          | false ↦ elim (current format == b's') [
            | false ↦
                fail_at
                  "In a struct specifier, the specifier for the key is '%c', but it must be 's'."
                  (advance format)
            | true ↦
                then_parse (skip_closing (skip_colon (advance format) keys)) (λ _ format' keys'.
                  then_parse
                    (skip_closing
                      (skip_comma (create_decomp_tree_next fuel format' (later_keys keys'))))
                    (λ d format'' keys''.
                      then_parse (build_struct_decomp_branch fuel (cnt + 1) format'' keys'')
                        (λ members format3 keys3.
                          parsed (mbr (next_key keys') d members) format3 keys3)))
          ]
        ]
      ]

-- createDecompTree
unfoldable pub create_decomp_tree : Bytes → List Bytes → Result Decomp
create_decomp_tree format keys =
    elim (create_decomp_tree_next (length format * 2 + 2) format keys) [
      | failed e _ ↦ err e
      | parsed d rest _ ↦
          if current rest == 0
          then ok d
          else faultf
              "format string '%s' has garbage at the end: '%s'.  It should be a specifier of a single value (but that might be a complex value, such as an array)"
    ]

-- decomposeValue: xmlrpc_decompose_value, and xmlrpc_parse_value
unfoldable pub decompose_value : Value → Bytes → List Bytes → Result (List Slot)
unfolding create_decomp_tree
decompose_value v format keys = elim (create_decomp_tree format keys) [
  | err e ↦ err e
  | ok root ↦ decompose_value_with_tree v root
]
