-- ===== src/Text/Names.antt =====
-- `normalizeName` (src/core/store.mjs).
use Prim.Native.Char.{code}
use distributed_job_queue_sc.Prelude.{
  ℕ, String, Bool, true, false, ◌≡◌, refl, ◌&&◌, arith, leb, if◌then◌else◌, Bool-cases, inl, inr,
}
use distributed_job_queue_sc.Text.{
  is_space, is_empty, trim_start, trim_end, trim, lower_char, lower, is_name_char, slug_from,
  or_text, normalize_name,
}

-- Every character is one of [a-z0-9_.-].
abbrev pub IsNameText : String → Type 0
IsNameText String.[] = Unit
IsNameText (String.◌∷◌ c s) = (is_name_char (code c) ≡ true) × IsNameText s

name_char-not_space : (n : ℕ) → is_name_char n ≡ true → is_space n ≡ false
unfolding is_name_char is_space
name_char-not_space n h = ground arith

slug_from-IsNameText : (in_run : Bool) (s : String) → IsNameText (slug_from is_name_char in_run s)
unfolding slug_from
slug_from-IsNameText in_run String.[] = tt
slug_from-IsNameText in_run (String.◌∷◌ c s) = elim (Bool-cases (is_name_char (code c))) [
  | inl e ↦ rw e (e, slug_from-IsNameText false s)
  | inr e ↦ rw e (skip in_run (slug_from-IsNameText true s))
]
  where
    skip :
        (b : Bool)
        → IsNameText (slug_from is_name_char true s)
        → IsNameText (
            if b
            then slug_from is_name_char true s
            else String.◌∷◌ "-" (slug_from is_name_char true s))
    skip true h = h
    skip false h = (unfold is_name_char in refl, h)

lower_char-name_char : (n : ℕ) → is_name_char n ≡ true → (leb 65 n && leb n 90) ≡ false
unfolding is_name_char
lower_char-name_char n h = ground arith

lower_of_name : (s : String) → IsNameText s → lower s ≡ s
unfolding lower lower_char
lower_of_name String.[] h = refl
lower_of_name (String.◌∷◌ c s) h = rw (lower_char-name_char (code c) h.0, lower_of_name s h.1)

trim_start_of_name : (s : String) → IsNameText s → trim_start s ≡ s
unfolding trim_start
trim_start_of_name String.[] h = refl
trim_start_of_name (String.◌∷◌ c s) h = rw (name_char-not_space (code c) h.0)

trim_end_of_name : (s : String) → IsNameText s → trim_end s ≡ s
unfolding trim_end
trim_end_of_name String.[] h = refl
trim_end_of_name (String.◌∷◌ c s) h = rw (name_char-not_space (code c) h.0, trim_end_of_name s h.1)

slug_from_of_name :
    (in_run : Bool) (s : String) → IsNameText s → slug_from is_name_char in_run s ≡ s
unfolding slug_from
slug_from_of_name in_run String.[] h = refl
slug_from_of_name in_run (String.◌∷◌ c s) h = rw (h.0, slug_from_of_name false s h.1)

or_text-IsNameText : (s : String) → IsNameText s → IsNameText (or_text s "default")
unfolding or_text is_empty
or_text-IsNameText String.[] h =
    unfold is_name_char in (refl, (refl, (refl, (refl, (refl, (refl, (refl, tt)))))))
or_text-IsNameText (String.◌∷◌ c s) h = h

or_text-not_empty : (s : String) → is_empty (or_text s "default") ≡ false
unfolding or_text is_empty
or_text-not_empty String.[] = refl
or_text-not_empty (String.◌∷◌ c s) = refl

or_text_of_not_empty : (s d : String) → is_empty s ≡ false → or_text s d ≡ s
unfolding or_text
or_text_of_not_empty s d h = rw h

-- A normalised name is never empty and holds only [a-z0-9_.-], whatever was asked for.
pub normalize_name-IsNameText :
    (value : String) → IsNameText (normalize_name value) × (is_empty (normalize_name value) ≡ false)
unfolding normalize_name
normalize_name-IsNameText value =
    let raw = lower (trim (or_text value "default")) in
    let s = slug_from is_name_char false raw in
    (or_text-IsNameText s (slug_from-IsNameText false raw), or_text-not_empty s)

-- Normalising a name that is already one changes nothing.
pub normalize_name_of_name : (s : String) → IsNameText s → is_empty s ≡ false → normalize_name s ≡ s
unfolding normalize_name trim
normalize_name_of_name s h e =
    rw
      (
        or_text_of_not_empty s "default" e,
        trim_start_of_name s h,
        trim_end_of_name s h,
        lower_of_name s h,
        slug_from_of_name false s h,
      )
      (or_text_of_not_empty s "default" e)

-- Normalising a name a second time changes nothing.
pub normalize_name_idem :
    (value : String) → normalize_name (normalize_name value) ≡ normalize_name value
normalize_name_idem value =
    let (chars, full) = normalize_name-IsNameText value in
    normalize_name_of_name (normalize_name value) chars full

name_test : normalize_name "  My Queue!! " ≡ "my-queue-"
unfolding normalize_name
name_test = refl
