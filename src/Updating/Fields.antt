-- ===== src/Updating/Fields.antt =====
-- internal/updater/updater.go: the two fields of a line of checksums.txt.
use Prim.Native.Char.{Char, code}
use Prim.Native.String.append
use clawdh.Base.{
  ◌≡◌, ◌≢◌, inl, inr, refl, sym, ap, ◌∙◌, String, [], ◌∷◌, Bool, true, false, not, ◌&&◌, ◌==◌,
  eq_iff, ◌<>◌, is_space, trim_space, trim_left, trim_right, if◌then◌else◌, Bool-cases,
}
use clawdh.Switching.Triggers.{fields, join_word, starts_word}

-- No character of a text is white space; a word has one.
unfoldable pub has_no_space : String → Bool
unfolding is_space
has_no_space String.[] = true
has_no_space (String.◌∷◌ c s) = not (is_space (code c)) && has_no_space s

pub no_space_split : (a b : Bool) → (not a && b) ≡ true → (a ≡ false) × (b ≡ true)
no_space_split false b h = (refl, h)
no_space_split true b h = cc

-- The first character of a word, and the rest of it.
pub has_no_space_split :
    (c : Char) (s : String)
    → has_no_space (String.◌∷◌ c s) ≡ true
    → (is_space (code c) ≡ false) × (has_no_space s ≡ true)
unfolding has_no_space
has_no_space_split c s h = no_space_split (is_space (code c)) (has_no_space s) h

fields-join_word :
    (c : Char) (s : String)
    → is_space (code c) ≡ false
    → fields (String.◌∷◌ c s) ≡ join_word (String.◌∷◌ c "") (starts_word s) (fields s)
unfolding fields
fields-join_word c s h = rw (fields, h) refl

pub before : (c : Char) (s : String) → String.◌∷◌ c "" <> s ≡ String.◌∷◌ c s
before c s = append.cons c "" s ∙ ap (String.◌∷◌ c) (append.nil s)

-- A word, and then the fields behind it.
fields_word :
    (s t : String)
    → has_no_space s ≡ true
    → s ≢ ""
    → starts_word t ≡ false
    → fields (s <> t) ≡ s ∷ fields t
unfolding join_word starts_word
fields_word String.[] t h given apart = absurd (given refl)
fields_word (String.◌∷◌ c String.[]) t h given apart =
    ap fields (before c t) ∙ fields-join_word c t (has_no_space_split c "" h).0 ∙ rw apart refl
fields_word (String.◌∷◌ c (String.◌∷◌ d s)) t h given apart =
    let here = has_no_space_split c (String.◌∷◌ d s) h in
    let there = has_no_space_split d s here.1 in
    let rest = fields_word (String.◌∷◌ d s) t here.1 (λ e. cc) apart in
    let joined : starts_word (String.◌∷◌ d s <> t) ≡ true =
      ap starts_word (append.cons d s t) ∙ rw (starts_word, there.0) refl in
    ap fields (append.cons c (String.◌∷◌ d s) t)
    ∙ fields-join_word c (String.◌∷◌ d s <> t) here.0
    ∙ rw (joined, rest) (ap (λ w. w ∷ fields t) (before c (String.◌∷◌ d s)))

-- White space before the fields goes.
fields-space :
    (c : Char) (t : String) → is_space (code c) ≡ true → fields (String.◌∷◌ c t) ≡ fields t
unfolding fields
fields-space c t h = rw (fields, h) refl

pub trim_right_word : (s : String) → has_no_space s ≡ true → trim_right s ≡ s
unfolding trim_right
trim_right_word String.[] h = refl
trim_right_word (String.◌∷◌ c s) h =
    let here = has_no_space_split c s h in
    rw (trim_right, here.0) (ap (String.◌∷◌ c) (trim_right_word s here.1))

nonempty_test : (t : String) → t ≢ "" → (t == "") ≡ false
nonempty_test t given = elim (Bool-cases (t == "")) [
  | inl e ↦ absurd (given ((eq_iff t "").0 e))
  | inr e ↦ e
]

append_nonempty : (s t : String) → t ≢ "" → s <> t ≢ ""
append_nonempty String.[] t given e = given (sym (append.nil t) ∙ e)
append_nonempty (String.◌∷◌ c s) t given e =
    let bad : String.◌∷◌ c (s <> t) ≡ "" = sym (append.cons c s t) ∙ e in cc

if_nothing : (b : Bool) (s t : String) → (if b && false then s else t) ≡ t
if_nothing true s t = refl
if_nothing false s t = refl

-- Nothing is cut off behind a text from which nothing is cut off.
trim_right-append : (s t : String) → trim_right t ≡ t → t ≢ "" → trim_right (s <> t) ≡ s <> t
unfolding trim_right
trim_right-append String.[] t h given = rw (append.nil t) h
trim_right-append (String.◌∷◌ c s) t h given = rw (append.cons c s t) (
    rw
      (
        trim_right,
        trim_right-append s t h given,
        nonempty_test (s <> t) (append_nonempty s t given),
      )
      (if_nothing (is_space (code c)) "" (String.◌∷◌ c (s <> t))))

trim_left-append : (s t : String) → has_no_space s ≡ true → s ≢ "" → trim_left (s <> t) ≡ s <> t
unfolding trim_left
trim_left-append String.[] t h given = absurd (given refl)
trim_left-append (String.◌∷◌ c s) t h given =
    rw (append.cons c s t) (rw (trim_left, (has_no_space_split c s h).0) refl)

blanks : (name : String) → "  " <> name ≡ String.◌∷◌ " " (String.◌∷◌ " " name)
blanks name =
    append.cons " " " " name
    ∙ ap (String.◌∷◌ " ") (append.cons " " "" name ∙ ap (String.◌∷◌ " ") (append.nil name))

append_nothing : (s : String) → s <> "" ≡ s
append_nothing String.[] = append.nil ""
append_nothing (String.◌∷◌ c s) = append.cons c s "" ∙ ap (String.◌∷◌ c) (append_nothing s)

fields_one : (s : String) → has_no_space s ≡ true → s ≢ "" → fields s ≡ s ∷ []
unfolding fields starts_word
fields_one s h given = ap fields (sym (append_nothing s)) ∙ fields_word s "" h given refl

-- A name or a digest, as it stands in a file.
abbrev pub IsWord : String → Type 0
IsWord s = (has_no_space s ≡ true) × (s ≢ "")

pub fields-line :
    (digest name : String)
    → IsWord digest
    → IsWord name
    → fields (trim_space (digest <> ("  " <> name))) ≡ digest ∷ name ∷ []
unfolding trim_space starts_word fields is_space
fields-line digest name (d, given) (n, named) =
    let kept : trim_space (digest <> ("  " <> name)) ≡ digest <> ("  " <> name) =
      ap trim_right (trim_left-append digest ("  " <> name) d given)
      ∙ trim_right-append digest ("  " <> name)
          (trim_right-append "  " name (trim_right_word name n) named)
          (append_nonempty "  " name named) in
    let apart : starts_word ("  " <> name) ≡ false = ap starts_word (blanks name) in
    let rest : fields ("  " <> name) ≡ name ∷ [] =
      ap fields (blanks name) ∙ fields_one name n named in
    ap fields kept ∙ fields_word digest ("  " <> name) d given apart ∙ ap (λ r. digest ∷ r) rest
