-- ===== src/Value/Data.antt =====
-- xmlrpc-c/src/xmlrpc_data.c: reading the values that are not compound. Making them is applying the
-- constructor, and reference counts have no counterpart.
use xml_rpc.Prelude.{ℕ, Bool, Bytes, ℤ, length}
use xml_rpc.Fault.{Result, ok, type_error, fault}
use xml_rpc.Value.{
  Value, int, bool, double, datetime, string, base64, array, struct, c_ptr, nil, i8, dead,
}

-- xmlrpc_type
pub data XmlrpcType : Type 0 where
  type_int type_bool type_double type_datetime type_string type_base64 : XmlrpcType
  type_array type_struct type_c_ptr type_nil type_i8 type_dead : XmlrpcType

-- xmlrpc_value_type
abbrev pub value_type : Value → XmlrpcType
value_type (int i) = type_int
value_type (bool b) = type_bool
value_type (double d) = type_double
value_type (datetime dt) = type_datetime
value_type (string block) = type_string
value_type (base64 block) = type_base64
value_type (array items) = type_array
value_type (struct ms) = type_struct
value_type (c_ptr p) = type_c_ptr
value_type nil = type_nil
value_type (i8 i) = type_i8
value_type dead = type_dead

-- xmlrpc_read_int
unfoldable pub read_int : Value → Result ℤ
read_int (int i) = ok i
read_int v = fault type_error "Value of type %s supplied where type %s was expected."

-- xmlrpc_read_bool
unfoldable pub read_bool : Value → Result Bool
read_bool (bool b) = ok b
read_bool v = fault type_error "Value of type %s supplied where type %s was expected."

-- xmlrpc_read_double
unfoldable pub read_double : Value → Result ℕ
read_double (double d) = ok d
read_double v = fault type_error "Value of type %s supplied where type %s was expected."

-- xmlrpc_read_base64
unfoldable pub read_base64 : Value → Result Bytes
read_base64 (base64 block) = ok block
read_base64 v = fault type_error "Value of type %s supplied where type %s was expected."

-- xmlrpc_read_base64_size
unfoldable pub read_base64_size : Value → Result ℕ
read_base64_size (base64 block) = ok (length block)
read_base64_size v = fault type_error "Value of type %s supplied where type %s was expected."

-- xmlrpc_read_cptr
unfoldable pub read_cptr : Value → Result ℕ
read_cptr (c_ptr p) = ok p
read_cptr v = fault type_error "Value of type %s supplied where type %s was expected."

-- xmlrpc_read_nil
unfoldable pub read_nil : Value → Result (Unit {0})
read_nil nil = ok tt
read_nil v = fault type_error "Value of type %s supplied where type %s was expected."

-- xmlrpc_read_i8
unfoldable pub read_i8 : Value → Result ℤ
read_i8 (i8 i) = ok i
read_i8 v = fault type_error "Value of type %s supplied where type %s was expected."
