-- ===== src/Json.antt =====
-- JSON values, as payloads, outputs and request fields carry them.
use distributed_job_queue_sc.Prelude.{
  String, Bool, true, false, zero, suc, List, [], ◌∷◌, str_eq, if◌then◌else◌,
}
use distributed_job_queue_sc.Prelude.Int.{ℤ, pos}

-- Numbers are integers, or an infinity (not NaN); no code under src computes with others.
mutual
  pub data Json : Type 0 where
    null : Json
    bool : Bool → Json
    num : ℤ → Json
    not_finite : Json
    str : String → Json
    arr : Items → Json
    obj : Fields → Json

  pub data Items : Type 0 where
    nil : Items
    cons : Json → Items → Items

  pub data Fields : Type 0 where
    end : Fields
    field : String → Json → Fields → Fields

-- `Boolean(value)`.
unfoldable pub is_true : Json → Bool
is_true null = false
is_true (bool b) = b
is_true (num (pos n)) = elim n [ zero ↦ false | suc m ↦ true ]
is_true not_finite = true
is_true (str s) = if str_eq s "" then false else true
is_true v = true

-- `Object.entries`.
unfoldable pub entries : Fields → List (String × Json)
entries end = []
entries (field k v fs) = (k, v) ∷ entries fs

-- `{ ...fields, key: value }`: a key that is there keeps its place.
unfoldable pub set_field : String → Json → Fields → Fields
set_field k v end = field k v end
set_field k v (field j w fs) = if str_eq j k then field j v fs else field j w (set_field k v fs)
