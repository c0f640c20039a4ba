-- ===== src/Value/Arrays.antt =====
-- xmlrpc-c/src/xmlrpc_array.c.
use xml_rpc.Prelude.{
  ℕ, zero, suc, ◌+◌, ◌<◌, ◌≡◌, refl, ℤ, pos, negsuc, Option, none, some, arith, ap,
}
use xml_rpc.Fault.{Result, ok, type_error, index_error, fault, IsFault}
use xml_rpc.Value.{Value, array, Values, no_items, item, count_items}

-- xmlrpc_array_new
abbrev pub array_new : Value
array_new = array no_items

-- xmlrpc_array_size
unfoldable pub array_size : Value → Result ℕ
array_size (array vs) = ok (count_items vs)
array_size v = fault type_error "Value is not an array"

unfoldable pub append_item : Values → Value → Values
append_item no_items v = item v no_items
append_item (item w vs) v = item w (append_item vs v)

-- xmlrpc_array_append_item
unfoldable pub array_append_item : Value → Value → Result Value
unfolding append_item
array_append_item (array vs) v = ok (array (append_item vs v))
array_append_item a v = fault type_error "Value is not an array"

-- contents[index]
unfoldable pub get_item : Values → ℕ → Option Value
get_item no_items i = none
get_item (item v vs) zero = some v
get_item (item v vs) (suc i) = get_item vs i

-- xmlrpc_array_read_item
unfoldable pub array_read_item : Value → ℕ → Result Value
unfolding get_item
array_read_item (array vs) index = elim (get_item vs index) [
  | none ↦ fault index_error "Array index %u is beyond end of %u-item array"
  | some v ↦ ok v
]
array_read_item a index =
    fault type_error "Attempt to read array item from a value that is not an array"

-- xmlrpc_array_get_item
unfoldable pub array_get_item : Value → ℤ → Result Value
unfolding array_read_item
array_get_item a (negsuc n) = fault index_error "Index %d is negative."
array_get_item a (pos index) = array_read_item a index

get_item-append_self :
    (vs : Values) (v : Value) → get_item (append_item vs v) (count_items vs) ≡ some v
unfolding get_item append_item
get_item-append_self no_items v = refl
get_item-append_self (item w vs) v = ground (arith, get_item-append_self vs v)

get_item-append_lt :
    (vs : Values) (v : Value) (i : ℕ)
    → i < count_items vs
    → get_item (append_item vs v) i ≡ get_item vs i
unfolding get_item append_item
get_item-append_lt no_items v i h = absurd (omega arith)
get_item-append_lt (item w vs) v zero h = refl
get_item-append_lt (item w vs) v (suc i) h = get_item-append_lt vs v i (omega arith)

pub count-append_item :
    (vs : Values) (v : Value) → count_items (append_item vs v) ≡ count_items vs + 1
unfolding append_item
count-append_item no_items v = refl
count-append_item (item w vs) v = omega (arith, count-append_item vs v)

get_item_out : (vs : Values) (i : ℕ) → count_items vs < i + 1 → get_item vs i ≡ none
unfolding get_item
get_item_out no_items i h = refl
get_item_out (item v vs) zero h = absurd (omega arith)
get_item_out (item v vs) (suc i) h = get_item_out vs i (omega arith)

read_item_out :
    (vs : Values) (i : ℕ)
    → count_items vs < i + 1
    → IsFault index_error (array_read_item (array vs) i)
unfolding array_read_item
read_item_out vs i h = rw (get_item_out vs i h, array_read_item) (_, refl, refl)

-- Appending an item makes the array longer by one; the new item is read at the index that was the
-- size, the others where they were, and beyond the end reading fails with an index error.
pub array_read-append_item :
    (vs : Values) (v : Value)
    → (vs' : Values) × (array_append_item (array vs) v ≡ ok (array vs'))
      × (array_size (array vs') ≡ ok (count_items vs + 1))
      × (array_read_item (array vs') (count_items vs) ≡ ok v)
      × ((i : ℕ)
          → i < count_items vs
          → array_read_item (array vs') i ≡ array_read_item (array vs) i)
      × ((i : ℕ) → count_items vs < i → IsFault index_error (array_read_item (array vs') i))
unfolding array_append_item array_size array_read_item
array_read-append_item vs v = (
  append_item vs v,
  refl,
  ap ok (count-append_item vs v),
  ground (arith, get_item-append_self vs v),
  λ i h. ground (arith, get_item-append_lt vs v i h),
  λ i h. read_item_out (append_item vs v) i (omega (arith, count-append_item vs v)),
)
