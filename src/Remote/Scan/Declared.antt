-- ===== src/Remote/Scan/Declared.antt =====
-- The permissions that are extracted are those that are declared.
use local_skill_orchestrator.Prelude.{
  String, ◌≡◌, refl, sym, ap, subst, ◌⊎◌, inl, inr, ◌↔◌, Bool, true, false, Option, none, some,
  ◌++◌, In, append-In, In-append_left, In-append_right, flat_map, In-flat_map, flat_map-In, dedup,
  dedup-In, In-dedup, sort_by-In, In-sort_by, on, leb,
}
use local_skill_orchestrator.Prelude.Json.{
  Json, string, array, object, Fields, get_field, null, boolean, integer, float,
}
use local_skill_orchestrator.Remote.Scan.{
  McpPermission, execute, network, permission_index, mcp_permission_Eq, alias, items_of,
  option_list, is_string, when, listed, reached, of_transport, permissions_of, of_package,
  extract_mcp_permissions,
}

-- A mapping has a command, which is executed, or an address, which is called.
abbrev pub Reaches : McpPermission → Fields → Type 0
Reaches p fields =
    ((is_string (get_field "command" fields) ≡ true) × (p ≡ execute))
    ⊎ ((is_string (get_field "url" fields) ≡ true) × (p ≡ network))

module _ (lowered : Json → String) where
  -- A mapping declares a permission: by an alias in its list, by its transport or by itself.
  abbrev pub Declares : McpPermission → Fields → Type 0
  Declares p fields =
      ((item : Json) × In item (items_of (get_field "permissions" fields))
        × (alias (lowered item) ≡ some p))
      ⊎ (((t : Fields) × (get_field "transport" fields ≡ some (object t)) × Reaches p t)
          ⊎ Reaches p fields)

  -- The metadata of a server declares it, or one of its packages.
  abbrev pub IsDeclared : McpPermission → Fields → Type 0
  IsDeclared p metadata =
      Declares p metadata
      ⊎ ((fields : Fields) × In (object fields) (items_of (get_field "packages" metadata))
          × Declares p fields)

option_list-In : {A : Type 0} (a : A) (o : Option A) → In a (option_list o) → o ≡ some a
option_list-In a none i = elim i [ ]
option_list-In a (some b) (inl e) = ap some (sym e)
option_list-In a (some b) (inr i) = elim i [ ]

when-In : {A : Type 0} (test : Bool) (a b : A) → In b (when test a) → (test ≡ true) × (b ≡ a)
when-In true a b (inl e) = (refl, e)
when-In true a b (inr i) = elim i [ ]
when-In false a b i = elim i [ ]

In-when : {A : Type 0} (test : Bool) (a b : A) → test ≡ true → b ≡ a → In b (when test a)
In-when test a b t e = rw t (inl e)

reached-Reaches : (p : McpPermission) (fields : Fields) → In p (reached fields) → Reaches p fields
unfolding reached
reached-Reaches p fields i =
    elim (append-In p (when (is_string (get_field "command" fields)) execute)
      (when (is_string (get_field "url" fields)) network) i) [
        | inl j ↦ inl (when-In (is_string (get_field "command" fields)) execute p j)
        | inr j ↦ inr (when-In (is_string (get_field "url" fields)) network p j)
      ]

Reaches-reached : (p : McpPermission) (fields : Fields) → Reaches p fields → In p (reached fields)
unfolding reached
Reaches-reached p fields (inl (t, e)) =
    In-append_left p (when (is_string (get_field "command" fields)) execute)
      (when (is_string (get_field "url" fields)) network)
      (In-when (is_string (get_field "command" fields)) execute p t e)
Reaches-reached p fields (inr (t, e)) =
    In-append_right p (when (is_string (get_field "command" fields)) execute)
      (when (is_string (get_field "url" fields)) network)
      (In-when (is_string (get_field "url" fields)) network p t e)

of_transport-Reaches :
    (p : McpPermission) (o : Option Json)
    → In p (of_transport o)
    → (t : Fields) × (o ≡ some (object t)) × Reaches p t
unfolding of_transport
of_transport-Reaches p (some (object t)) i = (t, refl, reached-Reaches p t i)
of_transport-Reaches p none i = elim i [ ]
of_transport-Reaches p (some null) i = elim i [ ]
of_transport-Reaches p (some (boolean b)) i = elim i [ ]
of_transport-Reaches p (some (integer n)) i = elim i [ ]
of_transport-Reaches p (some (float r)) i = elim i [ ]
of_transport-Reaches p (some (string s)) i = elim i [ ]
of_transport-Reaches p (some (array xs)) i = elim i [ ]

module _ (lowered : Json → String) where
  listed-alias :
      (p : McpPermission) (o : Option Json)
      → In p (listed lowered o)
      → (item : Json) × In item (items_of o) × (alias (lowered item) ≡ some p)
  unfolding listed
  listed-alias p o i =
      let (item, j, k) =
        flat_map-In (λ (x : Json). option_list (alias (lowered x))) p (items_of o) i in
      (item, j, option_list-In p (alias (lowered item)) k)

  alias-listed :
      (p : McpPermission) (o : Option Json) (item : Json)
      → In item (items_of o)
      → alias (lowered item) ≡ some p
      → In p (listed lowered o)
  unfolding listed
  alias-listed p o item i e =
      In-flat_map (λ (x : Json). option_list (alias (lowered x))) p item (items_of o) i
        (rw e (inl refl))

  permissions_of-Declares :
      (p : McpPermission) (fields : Fields)
      → In p (permissions_of lowered fields)
      → Declares lowered p fields
  unfolding permissions_of
  permissions_of-Declares p fields i =
      elim (append-In p (listed lowered (get_field "permissions" fields))
        (of_transport (get_field "transport" fields) ++ reached fields) i) [
          | inl j ↦ inl (listed-alias p (get_field "permissions" fields) j)
          | inr j ↦
              elim (append-In p (of_transport (get_field "transport" fields)) (reached fields) j) [
                | inl k ↦ inr (inl (of_transport-Reaches p (get_field "transport" fields) k))
                | inr k ↦ inr (inr (reached-Reaches p fields k))
              ]
        ]

  Declares-permissions_of :
      (p : McpPermission) (fields : Fields)
      → Declares lowered p fields
      → In p (permissions_of lowered fields)
  unfolding permissions_of of_transport
  Declares-permissions_of p fields (inl (item, i, e)) =
      In-append_left p (listed lowered (get_field "permissions" fields))
        (of_transport (get_field "transport" fields) ++ reached fields)
        (alias-listed p (get_field "permissions" fields) item i e)
  Declares-permissions_of p fields (inr (inl (t, e, r))) =
      In-append_right p (listed lowered (get_field "permissions" fields))
        (of_transport (get_field "transport" fields) ++ reached fields)
        (In-append_left p (of_transport (get_field "transport" fields)) (reached fields)
          (rw e (Reaches-reached p t r)))
  Declares-permissions_of p fields (inr (inr r)) =
      In-append_right p (listed lowered (get_field "permissions" fields))
        (of_transport (get_field "transport" fields) ++ reached fields)
        (In-append_right p (of_transport (get_field "transport" fields)) (reached fields)
          (Reaches-reached p fields r))

  of_package-Declares :
      (p : McpPermission) (v : Json)
      → In p (of_package lowered v)
      → (fields : Fields) × (v ≡ object fields) × Declares lowered p fields
  unfolding of_package
  of_package-Declares p (object fields) i = (fields, refl, permissions_of-Declares p fields i)
  of_package-Declares p null i = elim i [ ]
  of_package-Declares p (boolean b) i = elim i [ ]
  of_package-Declares p (integer n) i = elim i [ ]
  of_package-Declares p (float r) i = elim i [ ]
  of_package-Declares p (string s) i = elim i [ ]
  of_package-Declares p (array xs) i = elim i [ ]

  -- The permissions that are extracted are exactly those that the metadata of a server, or one of its packages,
  -- declares: by an alias in a list, or by a command or an address, also one of its transport.
  pub extract-IsDeclared :
      (p : McpPermission) (metadata : Fields)
      → In p (extract_mcp_permissions lowered metadata).permissions ↔ IsDeclared lowered p metadata
  unfolding extract_mcp_permissions of_package
  extract-IsDeclared p metadata =
      let packages = items_of (get_field "packages" metadata) in
      let own = permissions_of lowered metadata in
      let theirs = flat_map (of_package lowered) packages in
      let order = on permission_index leb in
      (
        λ i.
            elim (append-In p own theirs
              (dedup-In p (own ++ theirs) (sort_by-In order p (dedup (own ++ theirs)) i))) [
                | inl j ↦ inl (permissions_of-Declares p metadata j)
                | inr j ↦
                    let (v, k, l) = flat_map-In (of_package lowered) p packages j in
                    let (fields, e, d) = of_package-Declares p v l in
                    inr (fields, subst (λ x. In x packages) e k, d)
              ],
        λ h. In-sort_by order p (dedup (own ++ theirs)) (
            In-dedup p (own ++ theirs) (elim h [
              | inl d ↦ In-append_left p own theirs (Declares-permissions_of p metadata d)
              | inr (fields, k, d) ↦ In-append_right p own theirs (
                  In-flat_map (of_package lowered) p (object fields) packages k
                    (Declares-permissions_of p fields d))
            ])),
      )
