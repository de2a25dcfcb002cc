-- ===== src/Parts/Lookup.antt =====
-- find_part_in_file on a parts description file.
use lpctools.Base.{
  ℕ, zero, suc, ◌+◌, ◌^◌, ◌≤◌, ◌<◌, ◌≡◌, refl, ap, ◌∙◌, arith, Bool, List, [], ◌∷◌, ◌++◌, true,
  ◌||◌, none, some, length, drop, All, ◌==◌, get_or, if◌then◌else◌,
}
use mathlib.Core.List.{append_assoc}
use lpctools.Text.{skip_spaces, digit_in, digit_value}
use lpctools.Text.Hex.{print_x, strtoul-print_x}
use lpctools.Parts.{
  PartDesc, fgets_from, file_lines, skip_to_name, copy_name, read_values, read_part, part_from, buf,
  find_in_lines, find_part_in_file,
}
use lpctools.Parts.Format.{
  Entry, comment, blank, part, values_of, print_values, entry_line, print_file, lookup_part,
  IsNameChar, IsEntry, file_lines-print_file,
}

read_values-step :
    (einval : Bool) (n v c : ℕ) (s vs : List ℕ)
    → v < 2 ^ 32
    → digit_in 16 c ≡ none
    → read_values einval n (c ∷ s) ≡ some vs
    → read_values einval (suc n) (b',' ∷ b' ' ∷ (print_x v ++ c ∷ s)) ≡ some (v ∷ vs)
unfolding read_values
read_values-step einval n v c s vs small stop rest =
    let number =
      strtoul-print_x (b' ' ∷ (print_x v ++ c ∷ s)) v c s small stop
        (unfold skip_spaces print_x in refl) in
    rw (number, rest) (ground arith)

print_values_first :
    (vs : List ℕ) (c : ℕ) (s : List ℕ)
    → digit_in 16 c ≡ none
    → (d : ℕ) × (t : List ℕ) × (print_values vs ++ c ∷ s ≡ d ∷ t) × (digit_in 16 d ≡ none)
unfolding print_values digit_value
print_values_first [] c s stop = (c, s, refl, stop)
print_values_first (v ∷ vs) c s stop = (b',', _, refl, refl)

print_values-cons :
    (v : ℕ) (vs t : List ℕ)
    → print_values (v ∷ vs) ++ t ≡ b',' ∷ b' ' ∷ (print_x v ++ (print_values vs ++ t))
unfolding print_values
print_values-cons v vs t = rw (append_assoc (print_x v) (print_values vs) t)

read_values_end :
    (einval : Bool) (s : List ℕ) → read_values einval 0 (print_values [] ++ s) ≡ some []
unfolding read_values
read_values_end einval s = refl

read_values-print_values :
    (einval : Bool) (vs : List ℕ) (c : ℕ) (s : List ℕ)
    → All (λ v. v < 2 ^ 32) vs
    → digit_in 16 c ≡ none
    → read_values einval (length vs) (print_values vs ++ c ∷ s) ≡ some vs
read_values-print_values einval [] c s small stop = read_values_end einval (c ∷ s)
read_values-print_values einval (v ∷ vs) c s (less, small) stop =
    let (d, t, e, stop') = print_values_first vs c s stop in
    rw (print_values-cons v vs (c ∷ s), e)
      (read_values-step einval (length vs) v d t vs less stop'
        (rw e at (read_values-print_values einval vs c s small stop)))

copy_name_lem :
    (room : ℕ) (name s : List ℕ)
    → All IsNameChar name
    → length name ≤ room
    → copy_name room (name ++ b',' ∷ s) ≡ some (name, b',' ∷ s)
unfolding copy_name
copy_name_lem zero [] s chars fits = refl
copy_name_lem zero (c ∷ name) s chars fits = absurd (omega arith)
copy_name_lem (suc room) [] s chars fits = refl
copy_name_lem (suc room) (c ∷ name) s ((a, b, d), chars) fits =
    rw (a, b, copy_name_lem room name s chars (omega arith)) refl

skip_to_name_lem :
    (name s : List ℕ)
    → get_or name 0 0 ≡ b'L'
    → skip_to_name (b',' ∷ b' ' ∷ (name ++ s)) ≡ name ++ s
unfolding skip_to_name
skip_to_name_lem [] s starts = absurd (omega arith)
skip_to_name_lem (c ∷ name) s starts = rw starts refl

-- The text behind the identifier of a part's line.
abbrev rest_of_line : PartDesc → List ℕ → List ℕ
rest_of_line p s = b',' ∷ b' ' ∷ (p.name ++ (print_values (values_of p) ++ s))

read_part_lem :
    (einval : Bool) (id : ℕ) (endp text name t part_values : List ℕ)
    → skip_to_name endp ≡ text
    → copy_name 25 text ≡ some (name, t)
    → read_values einval 9 t ≡ some part_values
    → read_part einval id endp ≡ some (part_from id name part_values)
unfolding read_part
read_part_lem einval id endp text name t part_values skipped copied values =
    rw (skipped, copied, values, read_part) refl

copy_name-print_values :
    (p : PartDesc) (s : List ℕ)
    → IsEntry (part p)
    → copy_name 25 (p.name ++ (print_values (values_of p) ++ s))
      ≡ some (p.name, print_values (values_of p) ++ s)
copy_name-print_values p s (id, starts, fits, chars, small) =
    rw (print_values-cons p.flash_base (drop 1 (values_of p)) s)
      (copy_name_lem 25 p.name _ chars fits)

read_part-rest_of_line :
    (einval : Bool) (p : PartDesc) (c : ℕ) (s : List ℕ)
    → IsEntry (part p)
    → digit_in 16 c ≡ none
    → read_part einval p.part_id (rest_of_line p (c ∷ s)) ≡ some p
read_part-rest_of_line einval p c s (id, starts, fits, chars, small) stop =
    read_part_lem einval p.part_id (rest_of_line p (c ∷ s)) _ p.name _ (values_of p)
      (skip_to_name_lem p.name (print_values (values_of p) ++ c ∷ s) starts)
      (copy_name-print_values p (c ∷ s) (id, starts, fits, chars, small))
      (read_values-print_values einval (values_of p) c s small stop)

entry_line-part :
    (p : PartDesc) (s : List ℕ) → entry_line (part p) ++ s ≡ print_x p.part_id ++ rest_of_line p s
unfolding entry_line
entry_line-part p s =
    append_assoc (print_x p.part_id) _ s
    ∙ ap (λ (t : List ℕ). print_x p.part_id ++ b',' ∷ b' ' ∷ t)
        (append_assoc p.name (print_values (values_of p)) s)

-- The loop goes on behind a line that is empty or a comment.
find_in_lines_skip :
    (einval : Bool) (behind : ℕ → List ℕ) (dev_id c : ℕ) (l : List ℕ) (ls : List (List ℕ)) (n : ℕ)
    → (c == b'#' || c == b'\n') ≡ true
    → find_in_lines einval behind dev_id ((c ∷ l) ∷ ls) n
      ≡ find_in_lines einval behind dev_id ls (n + 1)
unfolding find_in_lines
find_in_lines_skip einval behind dev_id c l ls n skipped = rw skipped refl

-- A line that starts with a printed identifier.
find_in_lines_id :
    (einval : Bool) (behind : ℕ → List ℕ) (dev_id id : ℕ) (l t : List ℕ) (ls : List (List ℕ))
    (n : ℕ)
    → id < 2 ^ 32
    → buf behind (n + 1) l ≡ print_x id ++ b',' ∷ t
    → find_in_lines einval behind dev_id (l ∷ ls) n ≡ (
        if id == dev_id
        then read_part einval id (b',' ∷ t)
        else find_in_lines einval behind dev_id ls (n + 1))
unfolding find_in_lines
find_in_lines_id einval behind dev_id id l t ls n small e =
    let number =
      strtoul-print_x (print_x id ++ b',' ∷ t) id b',' t small (unfold digit_value in refl)
        (unfold skip_spaces print_x in refl) in
    let first : get_or (print_x id ++ b',' ∷ t) 0 0 ≡ b'0' = unfold print_x in refl in
    rw (e, first, number) (ground arith)

buf-part :
    (p : PartDesc) (behind : ℕ → List ℕ) (n : ℕ)
    → buf behind n (entry_line (part p) ++ b'\n' ∷ [])
      ≡ print_x p.part_id ++ rest_of_line p (b'\n' ∷ 0 ∷ behind n)
buf-part p behind n = append_assoc (entry_line (part p)) _ _ ∙ entry_line-part p _

digit_in-newline : digit_in 16 b'\n' ≡ none
unfolding digit_value
digit_in-newline = refl

entry_line-comment : (text s : List ℕ) → entry_line (comment text) ++ s ≡ b'#' ∷ (text ++ s)
unfolding entry_line
entry_line-comment text s = refl

entry_line-blank : (s : List ℕ) → entry_line blank ++ s ≡ s
unfolding entry_line
entry_line-blank s = refl

no_lines :
    (einval : Bool) (behind : ℕ → List ℕ) (dev_id n : ℕ)
    → find_in_lines einval behind dev_id (file_lines (print_file [])) n ≡ none
unfolding find_in_lines print_file fgets_from
no_lines einval behind dev_id n = refl

find_in_lines-lookup_part :
    (einval : Bool) (behind : ℕ → List ℕ) (dev_id : ℕ) (es : List Entry) (n : ℕ)
    → All IsEntry es
    → find_in_lines einval behind dev_id (file_lines (print_file es)) n ≡ lookup_part dev_id es
unfolding lookup_part
find_in_lines-lookup_part einval behind dev_id [] n valid = no_lines einval behind dev_id n
find_in_lines-lookup_part einval behind dev_id (comment text ∷ es) n (is, valid) =
    rw (file_lines-print_file (comment text) es is, entry_line-comment text (b'\n' ∷ []))
      (find_in_lines_skip einval behind dev_id b'#' (text ++ b'\n' ∷ []) _ n refl
        ∙ find_in_lines-lookup_part einval behind dev_id es (n + 1) valid)
find_in_lines-lookup_part einval behind dev_id (blank ∷ es) n (is, valid) =
    rw (file_lines-print_file blank es is, entry_line-blank (b'\n' ∷ []))
      (find_in_lines_skip einval behind dev_id b'\n' [] _ n refl
        ∙ find_in_lines-lookup_part einval behind dev_id es (n + 1) valid)
find_in_lines-lookup_part einval behind dev_id (part p ∷ es) n (is, valid) =
    rw
      (
        file_lines-print_file (part p) es is,
        find_in_lines_id einval behind dev_id p.part_id (entry_line (part p) ++ b'\n' ∷ []) _
            (file_lines (print_file es)) n is.0 (buf-part p behind (n + 1)),
        read_part-rest_of_line einval p b'\n' (0 ∷ behind (n + 1)) is digit_in-newline,
        find_in_lines-lookup_part einval behind dev_id es (n + 1) valid,
      )
      refl

-- On the text of a table of comments that fit the buffer, empty lines and parts (with an identifier
-- and values below 2 ^ 32 and a name that starts with L and has at most 25 characters, no comma, NUL
-- or line end among them), find_part_in_file finds the first part of the table with the identifier,
-- with its name and all its values, and NULL if there is none; whether or not strtoul sets EINVAL, and
-- whatever the buffer held before.
pub find_part_in_file-lookup_part :
    (einval : Bool) (behind : ℕ → List ℕ) (dev_id : ℕ) (es : List Entry)
    → All IsEntry es
    → find_part_in_file einval behind dev_id (some (print_file es)) ≡ lookup_part dev_id es
unfolding find_part_in_file
find_part_in_file-lookup_part einval behind dev_id es valid =
    find_in_lines-lookup_part einval behind dev_id es 0 valid
