-- ===== src/Schemas/Laws.antt =====
-- What the payload check accepts.
use distributed_job_queue_sc.Prelude.{
  String, Bool, true, ◌≡◌, refl, ◌↔◌, List, [], ◌∷◌, ◌++◌, ap, some, arith,
}
use distributed_job_queue_sc.Prelude.Int.{ℤ}
use distributed_job_queue_sc.Json.{Json, null, bool, num, str, obj, Fields, end, field}
use distributed_job_queue_sc.Schemas.{
  FieldType, string, number, boolean, Schema, job_schemas, Property, own, inherited, undefined,
  get_property, matches_type, matches_inherited, check_field, check_fields, errors_under,
  validate_payload,
}

-- A value that a field of the given type may hold.
pub data Fits : FieldType → Json → Type 0 where
  missing : (t : FieldType) → Fits t null
  a_string : (s : String) → Fits string (str s)
  a_number : (n : ℤ) → Fits number (num n)
  a_boolean : (b : Bool) → Fits boolean (bool b)

-- Every field that the schema names has a value of its type; a key that only `Object.prototype`
-- knows must be null; any other key may hold anything.
abbrev pub FieldFits : Property FieldType → Json → Type 0
FieldFits undefined v = Unit
FieldFits (own t) v = Fits t v
FieldFits inherited v = v ≡ null

abbrev pub Conforms : Schema → Fields → Type 0
Conforms schema end = Unit
Conforms schema (field k v fs) = FieldFits (get_property k schema) v × Conforms schema fs

matches_type-Fits : (v : Json) (t : FieldType) → matches_type v t ≡ true → Fits t v
unfolding matches_type
matches_type-Fits null t h = missing t
matches_type-Fits (str s) string h = a_string s
matches_type-Fits (num n) number h = a_number n
matches_type-Fits (bool b) boolean h = a_boolean b
matches_type-Fits v t h = cc

Fits-matches_type : {t : FieldType} {v : Json} → Fits t v → matches_type v t ≡ true
unfolding matches_type
Fits-matches_type (missing t) = refl
Fits-matches_type (a_string s) = refl
Fits-matches_type (a_number n) = refl
Fits-matches_type (a_boolean b) = refl

matches_inherited-null : (v : Json) → matches_inherited v ≡ true → v ≡ null
unfolding matches_inherited
matches_inherited-null null h = refl
matches_inherited-null v h = cc

check_field_iff :
    (p : Property FieldType) (k : String) (v : Json) → (check_field p k v ≡ []) ↔ FieldFits p v
unfolding check_field
check_field_iff undefined k v = (λ _. tt, λ _. refl)
check_field_iff (own t) k v =
    (λ h. matches_type-Fits v t (ground arith), λ f. rw (Fits-matches_type f))
check_field_iff inherited k v =
    (λ h. matches_inherited-null v (ground arith), λ e. rw e (unfold matches_inherited in refl))

append-nil_iff : (xs ys : List String) → (xs ++ ys ≡ []) ↔ ((xs ≡ []) × (ys ≡ []))
append-nil_iff [] ys = (λ h. (refl, h), λ h. h.1)
append-nil_iff (x ∷ xs) ys = (λ h. cc, λ h. cc)

check_fields_iff :
    (schema : Schema) (fs : Fields) → (check_fields schema fs ≡ []) ↔ Conforms schema fs
unfolding check_fields
check_fields_iff schema end = (λ _. tt, λ _. refl)
check_fields_iff schema (field k v fs) =
    let split = append-nil_iff (check_field (get_property k schema) k v) (check_fields schema fs) in
    let here = check_field_iff (get_property k schema) k v in
    let there = check_fields_iff schema fs in
    (λ h. (here.0 (split.0 h).0, there.0 (split.0 h).1), λ c. split.1 (here.1 c.0, there.1 c.1))

-- A payload that a known type's schema accepts: an object whose fields conform.
abbrev pub Accepts : Schema → Json → Type 0
Accepts schema payload = (fs : Fields) × (payload ≡ obj fs) × Conforms schema fs

errors_under-Accepts :
    (schema : Schema) (p : Json) → errors_under (own schema) p ≡ some [] → Accepts schema p
unfolding errors_under
errors_under-Accepts schema (obj fs) h = (fs, refl, (check_fields_iff schema fs).0 (ground arith))
errors_under-Accepts schema p h = cc

-- For a type with a schema the check accepts exactly the JSON objects whose named fields are null or
-- of the named type, and whose keys inherited from `Object.prototype` are null.
pub validate_payload_iff :
    (type : String) (schema : Schema) (payload : Json)
    → get_property type job_schemas ≡ own schema
    → (validate_payload type payload ≡ some []) ↔ Accepts schema payload
unfolding validate_payload
validate_payload_iff type schema payload known = (
  λ h. errors_under-Accepts schema payload (rw known at h),
  λ (fs, e, c). rw (known, e) (ap some ((check_fields_iff schema fs).1 c)),
)
