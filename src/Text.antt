-- ===== src/Text.antt =====
-- JavaScript text, as far as the store uses it: trim, ASCII lower case, split on a comma, the
-- slugs of names and ids, decimal print (src/core/store.mjs, src/core/ids.mjs).
pub mod Names
use Prim.Native.Char.{Char, code}
use Prim.Native.String.{char_at, compare as compare_texts}
use text.Mathlib.Text.{find?, is_lt}
use distributed_job_queue_sc.Prelude.{
  ℕ, zero, suc, ◌+◌, ◌-◌, ◌/◌, ◌%◌, String, Bool, true, false, ◌&&◌, ◌||◌, List, [], ◌∷◌, Option,
  none, some, ltb, leb, ◌==◌, if◌then◌else◌, str_eq, is_some, concat,
}

-- White space and line ends, as `String.prototype.trim` reads them.
unfoldable pub is_space : ℕ → Bool
is_space n =
    (leb 9 n && leb n 13)
    || n == 32
    || n == 160
    || n == 5760
    || (leb 8192 n && leb n 8202)
    || n == 8232
    || n == 8233
    || n == 8239
    || n == 8287
    || n == 12288
    || n == 65279

unfoldable pub is_empty : String → Bool
is_empty String.[] = true
is_empty (String.◌∷◌ c s) = false

unfoldable pub trim_start : String → String
unfolding is_space
trim_start String.[] = String.[]
trim_start (String.◌∷◌ c s) = if is_space (code c) then trim_start s else String.◌∷◌ c s

unfoldable pub trim_end : String → String
unfolding is_space is_empty
trim_end String.[] = String.[]
trim_end (String.◌∷◌ c s) =
    let rest = trim_end s in
    if is_space (code c) && is_empty rest then String.[] else String.◌∷◌ c rest

-- `text.trim()`.
unfoldable pub trim : String → String
unfolding trim_start trim_end
trim s = trim_end (trim_start s)

abbrev letters : String
letters = "abcdefghijklmnopqrstuvwxyz"

unfoldable pub lower_char : Char → Char
lower_char c = if leb 65 (code c) && leb (code c) 90 then char_at letters (code c - 65) else c

-- `text.toLowerCase()`, on the ASCII letters.
unfoldable pub lower : String → String
unfolding lower_char
lower String.[] = String.[]
lower (String.◌∷◌ c s) = String.◌∷◌ (lower_char c) (lower s)

abbrev pub is_lower_letter : ℕ → Bool
is_lower_letter n = leb 97 n && leb n 122

abbrev pub is_digit : ℕ → Bool
is_digit n = leb 48 n && leb n 57

-- [a-z0-9_.-]
unfoldable pub is_name_char : ℕ → Bool
is_name_char n = is_lower_letter n || is_digit n || n == 95 || n == 46 || n == 45

-- [a-z0-9]
unfoldable pub is_id_char : ℕ → Bool
is_id_char n = is_lower_letter n || is_digit n

-- `text.replace(/[^…]+/g, "-")`: each maximal run of other characters becomes one dash. The flag
-- says that the characters just before are such a run.
unfoldable pub slug_from : (ℕ → Bool) → Bool → String → String
slug_from keep in_run String.[] = String.[]
slug_from keep in_run (String.◌∷◌ c s) =
    let kept = String.◌∷◌ c (slug_from keep false s) in
    let skipped = slug_from keep true s in
    if keep (code c) then kept else if in_run then skipped else String.◌∷◌ "-" skipped

-- `String(value || "default").trim().toLowerCase().replace(/[^a-z0-9_.-]+/g, "-") || "default"`.
unfoldable pub or_text : String → String → String
unfolding is_empty
or_text s d = if is_empty s then d else s

unfoldable pub normalize_name : String → String
unfolding or_text slug_from is_name_char lower trim
normalize_name value =
    or_text (slug_from is_name_char false (lower (trim (or_text value "default")))) "default"

-- `text.split(…)` at a character; `cur` is the part that is being read.
unfoldable pub split_from : ℕ → String → String → List String
split_from at cur String.[] = cur ∷ []
split_from at cur (String.◌∷◌ c s) =
    let closed = cur ∷ split_from at String.[] s in
    let longer = split_from at (concat (cur ∷ String.◌∷◌ c String.[] ∷ [])) s in
    if code c == at then closed else longer

-- `list.map((item) => String(item).trim()).filter(Boolean)`.
unfoldable pub trim_items : List String → List String
unfolding trim is_empty
trim_items [] = []
trim_items (s ∷ ss) = let rest = trim_items ss in if is_empty (trim s) then rest else trim s ∷ rest

-- What a caller may give for a list of ids: nothing, a comma list, or an array.
pub data IdList : Type 0 where
  absent : IdList
  comma_text : String → IdList
  items : List String → IdList

unfoldable pub normalize_id_list : IdList → List String
unfolding trim_items split_from is_empty
normalize_id_list absent = []
normalize_id_list (comma_text s) =
    if is_empty s then [] else trim_items (split_from b',' String.[] s)
normalize_id_list (items l) = trim_items l

-- The decimal digits of a number, in front of `acc`; n + 1 rounds are enough.
unfoldable pub digits_from : ℕ → ℕ → String → String
digits_from zero n acc = acc
digits_from (suc f) n acc =
    let acc' = String.◌∷◌ (char_at "0123456789" (n % 10)) acc in
    elim (ltb n 10) [ true ↦ acc' | false ↦ digits_from f (n / 10) acc' ]

-- `${n}`.
unfoldable pub show : ℕ → String
unfolding digits_from
show n = digits_from (suc n) n ""

-- `/piece/i.test(text)` for a piece in lower case.
unfoldable pub contains : String → String → Bool
unfolding lower
contains piece s = is_some (find? (lower s) piece)

-- `emptyToNull`: the trimmed text, or null.
unfoldable pub empty_to_null : Option String → Option String
unfolding is_empty trim
empty_to_null none = none
empty_to_null (some s) = if is_empty (trim s) then none else some (trim s)

-- A strict order on texts, by their bytes.
unfoldable pub text_before : String → String → Bool
text_before a b = is_lt (compare_texts a b)

-- The truth value of an optional text.
unfoldable pub is_truthy : Option String → Bool
unfolding is_empty
is_truthy none = false
is_truthy (some s) = if is_empty s then false else true
