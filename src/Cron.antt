-- ===== src/Cron.antt =====
-- The fields of cron expressions: `parseField` (src/core/cron.mjs). A `Set` is the list of its values
-- in the order of insertion.
pub mod Search
pub mod Values
pub mod Range
pub mod Next
pub mod Zone
use Prim.Native.Char.{code}
use distributed_job_queue_sc.Prelude.{
  ◌^◌, ℕ, zero, suc, ◌+◌, ◌-◌, ◌*◌, String, Bool, true, false, ◌&&◌, ◌||◌, List, [], ◌∷◌, ◌++◌,
  Option, none, some, ltb, leb, ◌==◌, str_eq, concat, any, if◌then◌else◌,
}
use distributed_job_queue_sc.Prelude.Int.{ℤ, pos, negsuc, pos_part, ltb_ℤ}
use distributed_job_queue_sc.Text.{is_space, is_digit, is_empty, trim, trim_start, split_from}
use distributed_job_queue_sc.Input.{Parsed, nan, int}
use distributed_job_queue_sc.Dates.{Calendar, TimeZone}
use distributed_job_queue_sc.Exec.{Result, ok, err, Error, failure}

-- `text.includes("c")`.
unfoldable pub has_char : ℕ → String → Bool
has_char c String.[] = false
has_char c (String.◌∷◌ d s) = code d == c || has_char c s

-- The digits in front of a text, after the number that was read; `none` before the first digit.
unfoldable pub read_digits : Option ℕ → String → Option ℕ
read_digits acc String.[] = acc
read_digits acc (String.◌∷◌ c s) =
    let before : ℕ = elim acc [ none ↦ 0 | some n ↦ n ] in
    let longer = read_digits (some (before * 10 + (code c - 48))) s in
    if is_digit (code c) then longer else acc

abbrev negative : ℕ → ℤ
negative zero = pos 0
negative (suc n) = negsuc n

-- From here on `parseInt` gives Infinity.
abbrev infinite : ℕ
infinite = 2 ^ 1024 - 2 ^ 970

-- Neither NaN nor Infinity is an integer, which is all that a field asks of them.
abbrev signed : (ℕ → ℤ) → Option ℕ → Parsed
signed sign none = nan
signed sign (some n) = if ltb n infinite then int (sign n) else nan

unfoldable pub read_signed : String → Parsed
unfolding read_digits
read_signed String.[] = nan
read_signed (String.◌∷◌ c s) =
    if code c == b'-'
    then signed negative (read_digits none s)
    else if code c == b'+'
    then signed pos (read_digits none s)
    else signed pos (read_digits none (String.◌∷◌ c s))

-- `Number.parseInt(text, 10)`, before it is rounded; `nan` stands for NaN and for Infinity.
unfoldable pub parse_int : String → Parsed
unfolding read_signed trim_start
parse_int s = read_signed (trim_start s)

-- One part of a field: the values start, start + step, … up to end.
pub record Segment : Type 0 where
  pub start : ℕ
  pub last : ℕ
  pub step : ℕ

-- The parts of `const [first, second] = text.split("c")`.
abbrev pub first_part : List String → String
first_part [] = ""
first_part (p ∷ ps) = p

abbrev pub second_part : List String → Option String
second_part (p ∷ q ∷ ps) = some q
second_part ps = none

-- `Number.parseInt` of a part that may be undefined.
unfoldable pub parse_part : Option String → Parsed
unfolding parse_int
parse_part none = nan
parse_part (some p) = parse_int p

unfoldable pub read_step : Option String → Parsed
unfolding parse_int
read_step none = int (pos 1)
read_step (some p) = parse_int p

-- `start` and `end`.
unfoldable pub read_bounds : String → (lo hi : ℕ) → Parsed × Parsed
unfolding parse_part parse_int has_char split_from
read_bounds range lo hi =
    let parts = split_from b'-' "" range in
    if str_eq range "*"
    then (int (pos lo), int (pos hi))
    else if has_char b'-' range
    then (parse_int (first_part parts), parse_part (second_part parts))
    else (parse_int range, parse_int range)

-- `Number.isInteger(step) && step >= 1`.
unfoldable pub good_step : Parsed → Option ℕ
good_step nan = none
good_step (int n) = if ltb_ℤ n (pos 1) then none else some (pos_part n)

-- The two bounds, if they pass the test of the field.
unfoldable pub good_bounds : Parsed × Parsed → (lo hi step : ℕ) → Option Segment
good_bounds (nan, b) lo hi step = none
good_bounds (int a, nan) lo hi step = none
good_bounds (int a, int b) lo hi step =
    if ltb_ℤ a (pos lo) || ltb_ℤ (pos hi) b || ltb_ℤ b a
    then none
    else some (record { start = pos_part a; last = pos_part b; step = step })

abbrev invalid_step : String → Error
invalid_step segment = failure (concat ("Invalid cron step \"" ∷ segment ∷ "\"." ∷ []))

abbrev invalid_field : String → Error
invalid_field segment = failure (concat ("Invalid cron field \"" ∷ segment ∷ "\"." ∷ []))

unfoldable pub check_bounds : String → Option Segment → Result Segment
check_bounds text none = err (invalid_field text)
check_bounds text (some g) = ok g

unfoldable pub check_segment : (text range : String) → (lo hi : ℕ) → Option ℕ → Result Segment
unfolding check_bounds good_bounds read_bounds
check_segment text range lo hi none = err (invalid_step text)
check_segment text range lo hi (some step) =
    check_bounds text (good_bounds (read_bounds range lo hi) lo hi step)

-- The body of the loop over the segments, up to the loop that adds the values.
unfoldable pub read_segment : String → (lo hi : ℕ) → Result Segment
unfolding check_segment good_step read_step split_from trim
read_segment text lo hi =
    let parts = split_from b'/' "" (trim text) in
    check_segment text (first_part parts) lo hi (good_step (read_step (second_part parts)))

-- `values.has(value)`.
unfoldable pub has : List ℕ → ℕ → Bool
unfolding any
has vs v = any (λ w. w == v) vs

-- `values.add(value)`.
unfoldable pub add_value : ℕ → List ℕ → List ℕ
unfolding has
add_value v vs = if has vs v then vs else vs ++ v ∷ []

-- for (value = start; value <= end; value += step); last + 1 - start rounds are enough.
unfoldable pub add_from : (rounds value last step : ℕ) → List ℕ → List ℕ
unfolding add_value
add_from zero value last step vs = vs
add_from (suc n) value last step vs =
    let rest = add_from n (value + step) last step (add_value value vs) in
    if leb value last then rest else vs

unfoldable pub add_segment : Segment → List ℕ → List ℕ
unfolding add_from
add_segment g vs = add_from (suc g.last - g.start) g.start g.last g.step vs

module _ {A B : Type 0} where
  infixl 5 ◌>>=◌
  unfoldable pub ◌>>=◌ : Result A → (A → Result B) → Result B
  ok a >>= f = f a
  err e >>= f = err e

unfoldable pub not_empty : List ℕ → Result (List ℕ)
not_empty [] = err (failure "Cron field cannot be empty.")
not_empty (v ∷ vs) = ok (v ∷ vs)

unfoldable pub parse_segments : List String → (lo hi : ℕ) → List ℕ → Result (List ℕ)
unfolding not_empty read_segment add_segment ◌>>=◌ trim
parse_segments [] lo hi vs = not_empty vs
parse_segments (text ∷ texts) lo hi vs =
    let skipped = parse_segments texts lo hi vs in
    let rest = λ (g : Segment). parse_segments texts lo hi (add_segment g vs) in
    if is_empty (trim text) then skipped else (read_segment text lo hi >>= rest)

-- `parseField(raw, [min, max])`.
unfoldable pub parse_field : String → (lo hi : ℕ) → Result (List ℕ)
unfolding parse_segments split_from
parse_field raw lo hi = parse_segments (split_from b',' "" raw) lo hi []
