-- ===== src/Value.antt =====
-- struct _xmlrpc_value of xmlrpc-c/include/xmlrpc-c/base_int.h, as the tree that it stands for: reference
-- counts, locks and the cached copies of a string are left out, and no two values share a part. A
-- `double` is its 64-bit pattern. The block of a string is its bytes without the NUL at the end.
pub mod Strings
pub mod Arrays
pub mod Structs
pub mod Data
pub mod Times
use xml_rpc.Prelude.{ℕ, ◌+◌, ℤ, Bool, Bytes}

-- xmlrpc_datetime; it may name no day at all, such as February 30.
pub record Datetime : Type 0 where
  pub year : ℕ
  pub month : ℕ
  pub day : ℕ
  pub hour : ℕ
  pub minute : ℕ
  pub second : ℕ
  pub microsecond : ℕ

mutual
  pub data Value : Type 0 where
    int : ℤ → Value
    bool : Bool → Value
    double : ℕ → Value
    datetime : Datetime → Value
    string : Bytes → Value
    base64 : Bytes → Value
    array : Values → Value
    struct : Members → Value
    c_ptr : ℕ → Value
    nil : Value
    i8 : ℤ → Value
    dead : Value

  pub data Values : Type 0 where
    no_items : Values
    item : Value → Values → Values

  -- _struct_member: the hash of the key, the key, the value.
  pub data Members : Type 0 where
    no_members : Members
    member : ℕ → Bytes → Value → Members → Members

-- The number of items, and of members.
abbrev pub count_items : Values → ℕ
count_items no_items = 0
count_items (item v vs) = count_items vs + 1

abbrev pub count_members : Members → ℕ
count_members no_members = 0
count_members (member h k v ms) = count_members ms + 1
