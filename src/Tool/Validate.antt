-- ===== src/Tool/Validate.antt =====
-- Which input a tool takes.
use skylark.Base.{
  ◌⊎◌, ◌∙◌, false, if◌then◌else◌, Option, none, some, is_ok, ◌≡◌, refl, true, ℕ_eq, List_eq, Result,
  subst, ap, List, sym, ==_iff, ◌>>◌, ◌∷◌, ok, [], err, inl, Bool, inr, ◌↔◌,
}
use mathlib.Core.List.Memᴰ
use mathlib.Core.List.{Memᴰ, List, ◌∷◌}
use skylark.Base.Dict.{Dict, lookup}
use skylark.Text.{Text, bytes}
use mathlib.Core.Option.{some-injective}
use skylark.Tool.{
  members_into, as_map, InputError, root_not_object, no_properties, null, boolean, number, array,
  Json, string, object, Fields, Schema, required_of, check_present, check_field, check_required,
  is_object_type, is_object, check_schema, boolean, InputError, number, array, check_parsed,
  validate_input,
}

-- A required field is a name that the input has.
pub record IsPresent (input : Dict Text Json) (j : Json) : Type 0 where
  pub name : Text
  pub named : j ≡ string name
  pub value : Json
  pub found : lookup name input ≡ some value

-- The input is an object, with its members, or `null`, with none.
abbrev pub HasFields : Option Json → Dict Text Json → Type 0
HasFields parsed fields =
    ((members : Fields) × (parsed ≡ some (object members)) × (fields ≡ members_into members []))
    ⊎ ((parsed ≡ some null) × (fields ≡ []))

-- The input has all required fields, and the schema describes an object.
pub record Accepts (parse : Text → Option Json) (schema : Schema) (input : Text) : Type 0 where
  pub fields : Dict Text Json
  pub parsed : HasFields (parse input) fields
  pub object_type : lookup (bytes "type") schema.parameters ≡ some (string (bytes "object"))
  pub properties : Fields
  pub has_properties : lookup (bytes "properties") schema.parameters ≡ some (object properties)
  pub complete :
      (j : Json)
      → Memᴰ j (required_of (lookup (bytes "required") schema.parameters))
      → IsPresent fields j

check_present-some :
    (name : Text) (o : Option Json)
    → is_ok (check_present name o) ≡ true
    → (value : Json) × (o ≡ some value)
unfolding check_present
check_present-some name none h = absurd (cc h)
check_present-some name (some value) h = (value, refl)

check_field-IsPresent :
    (j : Json) (input : Dict Text Json) → is_ok (check_field j input) ≡ true → IsPresent input j
unfolding check_field
check_field-IsPresent (string name) input h =
    let s = check_present-some name (lookup name input) h in
    record { name = name; named = refl; value = s.0; found = s.1 }
check_field-IsPresent null input h = absurd (cc h)
check_field-IsPresent (boolean b) input h = absurd (cc h)
check_field-IsPresent (number n) input h = absurd (cc h)
check_field-IsPresent (array items) input h = absurd (cc h)
check_field-IsPresent (object members) input h = absurd (cc h)

IsPresent-check_field :
    (j : Json) (input : Dict Text Json) → IsPresent input j → is_ok (check_field j input) ≡ true
unfolding check_field check_present
IsPresent-check_field j input p =
    subst (λ k. is_ok (check_field k input) ≡ true) (sym p.named)
      (ap (λ o. is_ok (check_present p.name o)) p.found)

>>-ok :
    (r s : Result InputError (Unit {0}))
    → is_ok (r >> s) ≡ true
    → (is_ok r ≡ true) × (is_ok s ≡ true)
>>-ok (ok u) s h = (refl, h)
>>-ok (err e) s h = absurd (cc h)

ok->> :
    (r s : Result InputError (Unit {0})) → is_ok r ≡ true → is_ok s ≡ true → is_ok (r >> s) ≡ true
ok->> (ok u) s h k = k
ok->> (err e) s h k = h

check_required_complete :
    (required : List Json) (input : Dict Text Json)
    → is_ok (check_required required input) ≡ true
    → (j : Json) → Memᴰ j required
    → IsPresent input j
unfolding check_required
check_required_complete [] input h j m = absurd (Memᴰ.not-nil m)
check_required_complete (k ∷ required) input h j m =
    let s = >>-ok (check_field k input) (check_required required input) h in
    elim (Memᴰ.cases_cons m) [
      | inl e ↦ subst (IsPresent input) (sym e) (check_field-IsPresent k input s.0)
      | inr n ↦ check_required_complete required input s.1 j n
    ]

check_required_of_complete :
    (required : List Json) (input : Dict Text Json)
    → ((j : Json) → Memᴰ j required → IsPresent input j)
    → is_ok (check_required required input) ≡ true
unfolding check_required
check_required_of_complete [] input p = refl
check_required_of_complete (k ∷ required) input p =
    ok->> (check_field k input) (check_required required input)
      (IsPresent-check_field k input (p k (Memᴰ.head refl)))
      (check_required_of_complete required input (λ j m. p j (Memᴰ.tail m)))

is_object_type-string :
    (o : Option Json) → is_object_type o ≡ true → o ≡ some (string (bytes "object"))
is_object_type-string none h = absurd (cc h)
is_object_type-string (some (string s)) h =
    ap (λ t. some (string t)) ((==_iff s (bytes "object")).0 h)
is_object_type-string (some null) h = absurd (cc h)
is_object_type-string (some (boolean b)) h = absurd (cc h)
is_object_type-string (some (number n)) h = absurd (cc h)
is_object_type-string (some (array items)) h = absurd (cc h)
is_object_type-string (some (object members)) h = absurd (cc h)

is_object-object : (o : Option Json) → is_object o ≡ true → (f : Fields) × (o ≡ some (object f))
is_object-object none h = absurd (cc h)
is_object-object (some (object f)) h = (f, refl)
is_object-object (some (string s)) h = absurd (cc h)
is_object-object (some null) h = absurd (cc h)
is_object-object (some (boolean b)) h = absurd (cc h)
is_object-object (some (number n)) h = absurd (cc h)
is_object-object (some (array items)) h = absurd (cc h)

if-ok :
    (b : Bool) (r : Result InputError (Unit {0})) (e : InputError)
    → is_ok (if b then r else err e) ≡ true
    → (b ≡ true) × (is_ok r ≡ true)
if-ok true r e h = (refl, h)
if-ok false r e h = absurd (cc h)

check_schema-cases :
    (params fields : Dict Text Json)
    → is_ok (check_schema params fields) ≡ true
    → (is_object_type (lookup (bytes "type") params) ≡ true)
      × (is_object (lookup (bytes "properties") params) ≡ true)
      × (is_ok (check_required (required_of (lookup (bytes "required") params)) fields) ≡ true)
unfolding check_schema
check_schema-cases params fields h =
    let outer = if-ok (is_object_type (lookup (bytes "type") params)) _ root_not_object h in
    let inner = if-ok (is_object (lookup (bytes "properties") params)) _ no_properties outer.1 in
    (outer.0, inner.0, inner.1)

as_map-HasFields :
    (o : Option Json) (fields : Dict Text Json) → as_map o ≡ some fields → HasFields o fields
unfolding as_map
as_map-HasFields none fields h = absurd (cc h)
as_map-HasFields (some (object members)) fields h =
    inl (members, refl, sym (some-injective (members_into members []) fields h))
as_map-HasFields (some null) fields h = inr (refl, sym (some-injective [] fields h))
as_map-HasFields (some (boolean b)) fields h = absurd (cc h)
as_map-HasFields (some (number n)) fields h = absurd (cc h)
as_map-HasFields (some (string s)) fields h = absurd (cc h)
as_map-HasFields (some (array items)) fields h = absurd (cc h)

HasFields-as_map :
    (o : Option Json) (fields : Dict Text Json) → HasFields o fields → as_map o ≡ some fields
unfolding as_map
HasFields-as_map o fields (inl (members, e, f)) = ap as_map e ∙ ap some (sym f)
HasFields-as_map o fields (inr (e, f)) = ap as_map e ∙ ap some (sym f)

check_parsed-some :
    (params : Dict Text Json) (o : Option (Dict Text Json))
    → is_ok (check_parsed params o) ≡ true
    → (fields : Dict Text Json) × (o ≡ some fields) × (is_ok (check_schema params fields) ≡ true)
unfolding check_parsed
check_parsed-some params none h = absurd (cc h)
check_parsed-some params (some fields) h = (fields, refl, h)

-- An input is valid just if it is an object, or `null`, which counts as one without members, it has every
-- field that the schema requires, and the schema is one of an object with properties; a required field
-- that is no string is never there.
pub validate_input-Accepts :
    (parse : Text → Option Json) (schema : Schema) (input : Text)
    → (is_ok (validate_input parse schema input) ≡ true) ↔ Accepts parse schema input
unfolding validate_input check_parsed check_schema
validate_input-Accepts parse schema input = (
  λ h.
      let p = check_parsed-some schema.parameters (as_map (parse input)) h in
      let s = check_schema-cases schema.parameters p.0 p.2 in
      let props = is_object-object (lookup (bytes "properties") schema.parameters) s.1 in
      record {
        fields = p.0;
        parsed = as_map-HasFields (parse input) p.0 p.1;
        object_type = is_object_type-string (lookup (bytes "type") schema.parameters) s.0;
        properties = props.0;
        has_properties = props.1;
        complete =
            check_required_complete (required_of (lookup (bytes "required") schema.parameters)) p.0
              s.2;
      },
  λ a.
      subst (λ o. is_ok (check_parsed schema.parameters o) ≡ true)
        (sym (HasFields-as_map (parse input) a.fields a.parsed))
        (rw (a.object_type, a.has_properties)
          (check_required_of_complete (required_of (lookup (bytes "required") schema.parameters))
            a.fields a.complete)),
)
