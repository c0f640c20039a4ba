-- ===== src/Registry/Lookup.antt =====
-- xmlrpc-c/src/method.c and xmlrpc-c/src/registry.c: the registry as a map from names to methods.
use xml_rpc.Prelude.{
  ℕ, ◌≡◌, refl, sym, subst, ◌∙◌, true, [], ◌∷◌, ◌++◌, Bytes, ◌⊎◌, inl, inr, Option, none, some,
  if◌then◌else◌, arith, Option-cases,
}
use xml_rpc.Fault.{faultf, Fault, Result-cases, ok, err, internal_error, FailsWith, IsFault}
use xml_rpc.Value.Structs.Lookup.{same_bytes_iff}
use xml_rpc.Registry.{Registry, MethodFn, registry_add, no_help}
use xml_rpc.Registry.Method.{
  streq, MethodInfo, MethodList, method_create, make_signature_list, signature_list_create,
  method_list_lookup_by_name, method_list_add,
}

make_signature_list-FailsWith :
    (s : Option Bytes) → FailsWith internal_error (make_signature_list s)
unfolding make_signature_list
make_signature_list-FailsWith s = elim (Result-cases (signature_list_create s)) [
  | inl (sigs, h) ↦ rw (h, make_signature_list) tt
  | inr (e, h) ↦ rw (h, make_signature_list) refl
]

-- Two names that are equal to a third are equal.
streq-both : (a b c : Bytes) → streq a c ≡ true → streq b c ≡ true → streq a b ≡ true
streq-both a b c p q =
    (same_bytes_iff a b).1 ((same_bytes_iff a c).0 p ∙ sym ((same_bytes_iff b c).0 q))

module _ {F : Type 0} where
  lookup-append :
      (list : MethodList F) (name : Bytes) (m : MethodInfo F) (n : Bytes)
      → method_list_lookup_by_name list name ≡ none
      → method_list_lookup_by_name (list ++ (name, m) ∷ []) n
        ≡ (if streq name n then some m else method_list_lookup_by_name list n)
  unfolding method_list_lookup_by_name
  lookup-append [] name m n h = refl
  lookup-append (p ∷ list) name m n h =
      ground (arith, lookup-append list name m n, streq-both p.0 name n)

  -- The source adds at the end of its list, and only a name that is not there.
  method_list_add-cases :
      (list : MethodList F) (name : Bytes) (m : MethodInfo F)
      → ((existing : MethodInfo F) × (method_list_lookup_by_name list name ≡ some existing)
          × IsFault internal_error (method_list_add list name m))
        ⊎ ((method_list_lookup_by_name list name ≡ none)
            × (method_list_add list name m ≡ ok (list ++ (name, m) ∷ [])))
  unfolding method_list_add
  method_list_add-cases list name m = elim (Option-cases (method_list_lookup_by_name list name)) [
    | inl h ↦ inr (h, rw (h, method_list_add) refl)
    | inr (m', h) ↦
        let run : method_list_add list name m ≡ faultf "Method named '%s' already registered" =
          rw (h, method_list_add) refl in
        inl (m', h, (_, run, refl))
  ]

module _ {World CallInfo : Type 0} where
  -- The method that a name stands for.
  abbrev pub method_of :
      Registry World CallInfo → Bytes → Option (MethodInfo (MethodFn World CallInfo))
  method_of registry name = method_list_lookup_by_name registry.methods name

  -- Registering fails with an internal error, if the name is taken or the signature string makes no
  -- sense. Otherwise the name stands for the new method, every other name for what it stood for, and
  -- nothing else of the registry changes.
  pub registry_add-lookup :
      (registry : Registry World CallInfo) (name : Bytes) (function : MethodFn World CallInfo)
      (signature_string help : Option Bytes) (size : ℕ)
      → ((((e : Fault) × (make_signature_list signature_string ≡ err e))
            ⊎ ((m : MethodInfo (MethodFn World CallInfo)) × (method_of registry name ≡ some m)))
          × IsFault internal_error (registry_add registry name function signature_string help size))
        ⊎ ((m : MethodInfo (MethodFn World CallInfo)) × (list : MethodList
              (MethodFn World CallInfo))
            × (method_of registry name ≡ none)
            × (m.method_fn ≡ function)
            × (make_signature_list signature_string ≡ ok m.signatures)
            × (registry_add registry name function signature_string help size
                ≡ ok (record registry { methods = list }))
            × ((n : Bytes)
                → method_list_lookup_by_name list n
                  ≡ (if streq name n then some m else method_of registry n)))
  unfolding registry_add method_create
  registry_add-lookup registry name function signature_string help size =
      elim (Result-cases (make_signature_list signature_string)) [
        | inr (e, h) ↦ inl (
          inl (e, h),
          (
            e,
            rw h refl,
            subst (FailsWith internal_error) h (make_signature_list-FailsWith signature_string),
          ),
        )
        | inl (sigs, h) ↦
            let m : MethodInfo (MethodFn World CallInfo) = record {
              method_fn = function;
              stack_size = size;
              signatures = sigs;
              help_text = elim help [ none ↦ no_help | some t ↦ t ];
            } in
            elim (method_list_add-cases registry.methods name m) [
              | inl (m', found, (e, refused, code)) ↦
                  inl (inr (m', found), (e, rw h (rw refused refl), code))
              | inr (free, added) ↦ inr (
                m,
                registry.methods ++ (name, m) ∷ [],
                free,
                refl,
                h,
                rw h (rw added refl),
                λ n. lookup-append registry.methods name m n free,
              )
            ]
      ]
