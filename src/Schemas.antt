-- ===== src/Schemas.antt =====
-- src/core/schemas.mjs: the check of a payload against the schema of its job type.
pub mod Laws
use Prim.Native.String.{◌++◌ as str_append}
use distributed_job_queue_sc.Prelude.{
  String, Bool, true, false, ◌||◌, List, [], ◌∷◌, ◌++◌, Option, none, some, str_eq, if◌then◌else◌,
  concat, includes,
}
use distributed_job_queue_sc.Json.{
  Json, null, bool, num, not_finite, str, arr, obj, Fields, end, field,
}

pub data FieldType : Type 0 where
  string number boolean : FieldType

abbrev pub type_name : FieldType → String
type_name string = "string"
type_name number = "number"
type_name boolean = "boolean"

abbrev pub Schema : Type 0
Schema = List (String × FieldType)

abbrev common : Schema
common = ("durationMs", number) ∷ ("failAlways", boolean) ∷ ("failUntilAttempt", number) ∷ []

-- `JOB_SCHEMAS`.
abbrev pub job_schemas : List (String × Schema)
job_schemas =
    ("email.digest", ("recipient", string) ∷ ("template", string) ∷ common)
    ∷ ("webhook.deliver", ("endpoint", string) ∷ common)
    ∷ ("report.generate", ("reportId", string) ∷ ("rows", number) ∷ common)
    ∷ ("billing.reconcile", ("accountId", string) ∷ ("invoiceCount", number) ∷ common)
    ∷ ("cache.warm", ("keyPattern", string) ∷ common)
    ∷ []

-- The keys that every object literal inherits from `Object.prototype`.
abbrev pub inherited_keys : List String
inherited_keys =
    "constructor" ∷ "__defineGetter__" ∷ "__defineSetter__" ∷ "hasOwnProperty" ∷ "__lookupGetter__"
    ∷ "__lookupSetter__" ∷ "isPrototypeOf" ∷ "propertyIsEnumerable" ∷ "toString" ∷ "valueOf"
    ∷ "__proto__" ∷ "toLocaleString" ∷ []

-- What `object[key]` finds.
pub data Property {ℓ} (A : Type ℓ) : Type ℓ where
  own : A → Property A
  inherited : Property A
  undefined : Property A

module _ {ℓ} {A : Type ℓ} where
  unfoldable pub get_property : String → List (String × A) → Property A
  get_property key [] = if includes key inherited_keys then inherited else undefined
  get_property key ((k, v) ∷ rest) = if str_eq k key then own v else get_property key rest

-- `String(value)` of an inherited property.
unfoldable pub inherited_text : String → String
inherited_text key =
    if str_eq key "__proto__"
    then "[object Object]"
    else if str_eq key "constructor"
    then "function Object() { [native code] }"
    else concat ("function " ∷ key ∷ "() { [native code] }" ∷ [])

-- `matchesType(value, expected)`.
unfoldable pub matches_type : Json → FieldType → Bool
matches_type null t = true
matches_type (str s) string = true
matches_type (num n) number = true
matches_type (bool b) boolean = true
matches_type v t = false

-- An inherited property is a function or an object, which is the name of no type.
unfoldable pub matches_inherited : Json → Bool
matches_inherited null = true
matches_inherited v = false

abbrev pub field_error : String → String → String
field_error key expected = concat ("Payload field \"" ∷ key ∷ "\" must be " ∷ expected ∷ "." ∷ [])

-- One round of the loop over `Object.entries(payload)`: the messages that it pushes.
unfoldable pub check_field : Property FieldType → String → Json → List String
unfolding matches_type matches_inherited inherited_text
check_field undefined key v = []
check_field (own t) key v = if matches_type v t then [] else field_error key (type_name t) ∷ []
check_field inherited key v =
    if matches_inherited v then [] else field_error key (inherited_text key) ∷ []

unfoldable pub check_fields : Schema → Fields → List String
unfolding check_field get_property
check_fields schema end = []
check_fields schema (field key v fs) =
    check_field (get_property key schema) key v ++ check_fields schema fs

abbrev pub not_object : String
not_object = "Payload must be a JSON object."

-- The errors under a schema. Under an inherited one, `schema.optional` is undefined and reading a
-- key of it is a TypeError, `none` here.
unfoldable pub errors_under : Property Schema → Json → Option (List String)
unfolding check_fields
errors_under undefined payload = some []
errors_under (own schema) (obj fs) = some (check_fields schema fs)
errors_under inherited (obj end) = some []
errors_under inherited (obj (field k v fs)) = none
errors_under _ payload = some (not_object ∷ [])

-- `validatePayload(type, payload)`: its list of errors; `ok` is that there is none.
unfoldable pub validate_payload : String → Json → Option (List String)
unfolding errors_under get_property
validate_payload type payload = errors_under (get_property type job_schemas) payload
