-- ===== src/Updating/Published.antt =====
-- internal/updater/updater.go: the digest read back from a file that sha256sum would have written.
use Prim.Native.Char.{code}
use Prim.Native.String.append
use clawdh.Base.{
  ℕ, zero, suc, ◌≤◌, ◌≡◌, inl, inr, refl, ap, ◌∙◌, String, List, [], ◌∷◌, none, some, Bool, true,
  false, not, ◌&&◌, ◌==◌, ◌<>◌, nat_eq, is_space, trim_space, trim_left, trim_right, has_prefix,
  lookup, All, Bool-cases, arith,
}
use clawdh.Local.Names.{to_lower}
use clawdh.Switching.Triggers.{fields}
use clawdh.Updating.Checksums.{
  limited, onto_line, split_lines, without_star, digest_of, checksum_in, checksum_of,
}
use clawdh.Updating.Install.{size}
use clawdh.Updating.Fields.{
  has_no_space, no_space_split, has_no_space_split, before, IsWord, fields-line,
}

-- A file of digests, as sha256sum writes it: each name's digest, two blanks and the name.
unfoldable pub checksums_file : List (String × String) → String
checksums_file [] = ""
checksums_file ((name, digest) ∷ rest) = (digest <> ("  " <> name)) <> ("\n" <> checksums_file rest)

has_no_newline : String → Bool
has_no_newline String.[] = true
has_no_newline (String.◌∷◌ c s) = not (nat_eq (code c) 10) && has_no_newline s

newline_IsSpace : (c : ℕ) → is_space c ≡ false → nat_eq c 10 ≡ false
unfolding is_space
newline_IsSpace c h = ground (arith, h)

word_has_no_newline : (s : String) → has_no_space s ≡ true → has_no_newline s ≡ true
unfolding has_no_newline
word_has_no_newline String.[] h = refl
word_has_no_newline (String.◌∷◌ c s) h =
    let here = has_no_space_split c s h in
    rw (newline_IsSpace (code c) here.0) (word_has_no_newline s here.1)

has_no_newline-append :
    (s t : String)
    → has_no_newline s ≡ true
    → has_no_newline t ≡ true
    → has_no_newline (s <> t) ≡ true
unfolding has_no_newline
has_no_newline-append String.[] t h k = rw (append.nil t) k
has_no_newline-append (String.◌∷◌ c s) t h k =
    let here = no_space_split (nat_eq (code c) 10) (has_no_newline s) h in
    rw (append.cons c s t) (rw (has_no_newline, here.0) (has_no_newline-append s t here.1 k))

split_lines-line :
    (s t : String) → has_no_newline s ≡ true → split_lines (s <> ("\n" <> t)) ≡ s ∷ split_lines t
unfolding split_lines has_no_newline onto_line
split_lines-line String.[] t h = ap split_lines (append.nil ("\n" <> t) ∙ before "\n" t)
split_lines-line (String.◌∷◌ c s) t h =
    let here = no_space_split (nat_eq (code c) 10) (has_no_newline s) h in
    rw (append.cons c s ("\n" <> t)) (
      rw (split_lines, here.0, split_lines-line s t here.1)
        (ap (λ l. l ∷ split_lines t) (before c s)))

limited_all : (n : ℕ) (s : String) → size s ≤ n → limited n s ≡ s
unfolding limited size
limited_all zero String.[] h = refl
limited_all zero (String.◌∷◌ c s) h = absurd (omega (arith, h))
limited_all (suc n) String.[] h = refl
limited_all (suc n) (String.◌∷◌ c s) h = ap (String.◌∷◌ c) (limited_all n s (omega (arith, h)))

-- A name and its digest, as they stand in such a file; a name does not begin with the mark of binary mode.
abbrev pub IsEntry : String × String → Type 0
IsEntry e = IsWord e.0 × IsWord e.1 × (has_prefix e.0 "*" ≡ false)

checksum_in-file :
    (want : String) (entries : List (String × String))
    → All IsEntry entries
    → checksum_in want (split_lines (checksums_file entries))
      ≡ elim (lookup want entries) [ some digest ↦ some (to_lower digest) | none ↦ none ]
unfolding checksum_in split_lines checksums_file digest_of without_star fields trim_space trim_left
    trim_right has_no_newline
checksum_in-file want [] h = refl
checksum_in-file want ((name, digest) ∷ rest) ((n, d, plain), h) =
    let whole : has_no_newline (digest <> ("  " <> name)) ≡ true =
      has_no_newline-append digest ("  " <> name) (word_has_no_newline digest d.0)
        (has_no_newline-append "  " name refl (word_has_no_newline name n.0)) in
    let again = checksum_in-file want rest h in
    rw (split_lines-line (digest <> ("  " <> name)) (checksums_file rest) whole) (
      rw (checksum_in, fields-line digest name d n, digest_of, without_star, plain)
        (elim (Bool-cases (name == want)) [ inl y ↦ rw y refl | inr m ↦ rw m again ]))

-- The digest that is read for a name from a file of digests is the one that sha256sum has written for it, in
-- lower case, or none where it has written none. The file must not be larger than a megabyte, and the names and
-- digests in it be words, not empty and without white space, and no name begin with an asterisk.
pub checksum_of-checksums_file :
    (want : String) (entries : List (String × String))
    → All IsEntry entries
    → size (checksums_file entries) ≤ 1_048_576
    → checksum_of want (checksums_file entries)
      ≡ elim (lookup want entries) [ some digest ↦ some (to_lower digest) | none ↦ none ]
unfolding checksum_of
checksum_of-checksums_file want entries h small =
    rw (checksum_of, limited_all 1_048_576 (checksums_file entries) small)
      (checksum_in-file want entries h)
