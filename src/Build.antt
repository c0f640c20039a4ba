-- ===== src/Build.antt =====
-- xmlrpc-c/src/xmlrpc_build.c: making a value as a format string says, from the variable arguments. Where
-- the arguments are not those that the format asks for, the source's behaviour is undefined; here it
-- is a fault.
use xml_rpc.Prelude.{
  ℕ, zero, suc, ◌*◌, true, false, List, [], ◌∷◌, ◌==◌, if◌then◌else◌, Bytes, length, c_str,
}
use xml_rpc.Fault.{Result, ok, faultf, ◌>>=◌}
use xml_rpc.Value.{Value, int, bool, double, base64, array, struct, c_ptr, nil, i8}
use xml_rpc.Value.Strings.{string_new_lp}
use xml_rpc.Value.Strings.Wide.{string_w_new_lp}
use xml_rpc.Value.Arrays.{array_new, array_append_item}
use xml_rpc.Value.Structs.{struct_new, struct_set_value_v}
use xml_rpc.Value.Times.{datetime_new_sec}
use xml_rpc.Value.Times.Text.{datetime_new_str}
use xml_rpc.Decompose.{
  Slot, int32_slot, bool_slot, double_slot, time_slot, text_slot, sized_slot, wide_slot,
  sized_wide_slot, bytes_slot, pointer_slot, int64_slot, value_slot,
}
use xml_rpc.Decompose.Format.{current, advance}

-- A value, what is left of the format string, and the arguments that are left.
abbrev pub Built : Type 0
Built = Result (Value × Bytes × List Slot)

-- va_arg, at one type
abbrev pub take_arg : List Slot → (Slot → Result Value) → Bytes → Built
take_arg [] make format = faultf "va_arg"
take_arg (arg ∷ args) make format = do v ← make arg; ok (v, format, args)

abbrev pub make_int : Slot → Result Value
make_int (int32_slot i) = ok (int i)
make_int arg = faultf "va_arg"

abbrev pub make_bool : Slot → Result Value
make_bool (bool_slot b) = ok (bool b)
make_bool arg = faultf "va_arg"

abbrev pub make_double : Slot → Result Value
make_double (double_slot d) = ok (double d)
make_double arg = faultf "va_arg"

abbrev pub make_time : Slot → Result Value
make_time (time_slot t) = datetime_new_sec t
make_time arg = faultf "va_arg"

abbrev pub make_datetime_str : Slot → Result Value
make_datetime_str (text_slot s) = datetime_new_str s
make_datetime_str arg = faultf "va_arg"

-- getString
abbrev pub make_string : Slot → Result Value
make_string (text_slot s) = string_new_lp (c_str s)
make_string arg = faultf "va_arg"

abbrev pub make_sized_string : Slot → Result Value
make_sized_string (sized_slot s) = string_new_lp s
make_sized_string arg = faultf "va_arg"

-- getWideString
abbrev pub make_wide_string : Slot → Result Value
make_wide_string (wide_slot s) = string_w_new_lp (c_str s)
make_wide_string arg = faultf "va_arg"

abbrev pub make_sized_wide_string : Slot → Result Value
make_sized_wide_string (sized_wide_slot s) = string_w_new_lp s
make_sized_wide_string arg = faultf "va_arg"

-- getBase64
abbrev pub make_base64 : Slot → Result Value
make_base64 (bytes_slot block) = ok (base64 block)
make_base64 arg = faultf "va_arg"

abbrev pub make_i8 : Slot → Result Value
make_i8 (int64_slot i) = ok (i8 i)
make_i8 arg = faultf "va_arg"

abbrev pub make_cptr : Slot → Result Value
make_cptr (pointer_slot p) = ok (c_ptr p)
make_cptr arg = faultf "va_arg"

abbrev pub make_value : Slot → Result Value
make_value (value_slot v) = ok v
make_value arg = faultf "va_arg"

-- mkArrayFromVal
abbrev pub make_array_from_val : Slot → Result Value
make_array_from_val (value_slot (array vs)) = ok (array vs)
make_array_from_val (value_slot v) = faultf "Array format ('A'), non-array xmlrpc_value"
make_array_from_val arg = faultf "va_arg"

-- mkStructFromVal
abbrev pub make_struct_from_val : Slot → Result Value
make_struct_from_val (value_slot (struct ms)) = ok (struct ms)
make_struct_from_val (value_slot v) = faultf "Struct format ('S'), non-struct xmlrpc_value"
make_struct_from_val arg = faultf "va_arg"

-- The cases of getValue.
pub data Maker : Type 0 where
  from_arg : (Slot → Result Value) → Maker
  from_sized_arg : (Slot → Result Value) → (Slot → Result Value) → Maker
  nil_maker array_maker struct_maker no_maker : Maker

unfoldable pub maker_of : ℕ → Maker
maker_of c =
    if c == b'i'
    then from_arg make_int
    else if c == b'b'
    then from_arg make_bool
    else if c == b'd'
    then from_arg make_double
    else if c == b's'
    then from_sized_arg make_string make_sized_string
    else if c == b'w'
    then from_sized_arg make_wide_string make_sized_wide_string
    else if c == b't'
    then from_arg make_time
    else if c == b'8'
    then from_arg make_datetime_str
    else if c == b'6'
    then from_arg make_base64
    else if c == b'n'
    then nil_maker
    else if c == b'I'
    then from_arg make_i8
    else if c == b'p'
    then from_arg make_cptr
    else if c == b'A'
    then from_arg make_array_from_val
    else if c == b'S'
    then from_arg make_struct_from_val
    else if c == b'V'
    then from_arg make_value
    else if c == b'('
    then array_maker
    else if c == b'{'
    then struct_maker
    else no_maker

-- What may stand behind a member: a comma, which is skipped, or the closing brace.
unfoldable pub after_member : Bytes → Result Bytes
after_member format =
    if current format == b','
    then ok (advance format)
    else if current format == b'}'
    then ok format
    else faultf "format string does not have ',' or ')' after a structure member"

-- The colon of getStructMember.
unfoldable pub after_key : Bytes → Result Bytes
after_key format =
    if current format == b':'
    then ok (advance format)
    else faultf "format string does not have ':' after a structure member key."

unfoldable mutual
  unfolding maker_of after_member after_key

  -- getValue
  pub get_value : ℕ → Bytes → List Slot → Built
  get_value zero format args = faultf "out of fuel"
  get_value (suc fuel) format args = elim (maker_of (current format)) [
    | from_arg make ↦ take_arg args make (advance format)
    | from_sized_arg make make_sized ↦
        if current (advance format) == b'#'
        then take_arg args make_sized (advance (advance format))
        else take_arg args make (advance format)
    | nil_maker ↦ ok (nil, advance format, args)
    | array_maker ↦ get_array fuel array_new (advance format) args
    | struct_maker ↦ get_struct fuel struct_new (advance format) args
    | no_maker ↦ faultf "Unexpected character '%s' in format string"
  ]

  -- The loop of getArray, from the items so far, and the step past the parenthesis
  pub get_array : ℕ → Value → Bytes → List Slot → Built
  get_array zero arr format args = faultf "out of fuel"
  get_array (suc fuel) arr format args = elim (current format == b')') [
    | true ↦ ok (arr, advance format, args)
    | false ↦ elim (current format == 0) [
      | true ↦ faultf "format string ended before closing ')'."
      | false ↦ get_value fuel format args >>= λ r.
          array_append_item arr r.0 >>= λ arr'. get_array fuel arr' r.1 r.2
    ]
  ]

  -- The loop of getStruct, with getStructMember, and the step past the brace
  pub get_struct : ℕ → Value → Bytes → List Slot → Built
  get_struct zero s format args = faultf "out of fuel"
  get_struct (suc fuel) s format args = elim (current format == b'}') [
    | true ↦ ok (s, advance format, args)
    | false ↦ get_value fuel format args >>= λ key. after_key key.1 >>= λ format'.
        get_value fuel format' key.2 >>= λ r. after_member r.1 >>= λ format''.
        struct_set_value_v s key.0 r.0 >>= λ s'. get_struct fuel s' format'' r.2
  ]

-- xmlrpc_build_value_va; every call takes a character or ends a loop.
unfoldable pub build_value_va : Bytes → List Slot → Built
build_value_va [] args = faultf "Format string is empty."
build_value_va (c ∷ format) args = get_value (length (c ∷ format) * 2) (c ∷ format) args

-- xmlrpc_build_value
unfoldable pub build_value : Bytes → List Slot → Result Value
unfolding build_value_va
build_value format args = do
  built ← build_value_va format args
  if current built.1 == 0
      then ok built.0
      else faultf
          "Junk after the format specifier: '%s'.  The format string must describe exactly one XML-RPC value (but it might be a compound value such as an array)"
