-- ===== src/Sandbox/Profile/Regex.antt =====
-- The three replacements of `glob_to_sb_regex` translate each character once.
use Prim.Native.Char.{Char, code}
use Prim.Native.String.{[], ◌∷◌}
use text.Mathlib.TextLemmas.{append_assoc, append-nil, cons-append, nil-append}
use autonomous_agent_account.Base.{
  ℕ, String, ◌≡◌, ◌∙◌, refl, sym, ap, ◌◇◌, replace, nat_eq, if◌then◌else◌, inl, inr, Bool-cases,
}
use autonomous_agent_account.Sandbox.Profile.{glob_to_sb_regex}

-- What one character of a glob means in a Seatbelt regular expression.
abbrev pub regex_char : Char → String
regex_char c =
    if nat_eq (code c) b'.'
    then "\\."
    else if nat_eq (code c) b'*'
    then ".*"
    else if nat_eq (code c) b'?'
    then "."
    else c ∷ []

abbrev pub regex_of : String → String
regex_of [] = []
regex_of (c ∷ s) = regex_char c ◇ regex_of s

replace-append : (k : ℕ) (t s u : String) → replace k t (s ◇ u) ≡ replace k t s ◇ replace k t u
unfolding replace
replace-append k t [] u = rw nil-append (rw nil-append)
replace-append k t (c ∷ s) u =
    rw cons-append (rw (replace-append k t s u) (sym (append_assoc _ _ _)))

replace-char :
    (k : ℕ) (t : String) (c : Char)
    → replace k t (c ∷ []) ≡ (if nat_eq (code c) k then t else c ∷ [])
unfolding replace
replace-char k t c = append-nil _

glob_char : (c : Char) → glob_to_sb_regex (c ∷ []) ≡ regex_char c
unfolding glob_to_sb_regex
glob_char c = elim (Bool-cases (nat_eq (code c) b'.')) [
  | inl dot ↦ rw (replace-char, dot)
  | inr d ↦
      rw (replace-char, d)
        (elim (Bool-cases (nat_eq (code c) b'*')) [
          | inl star ↦ rw (replace-char, star)
          | inr s ↦ rw (replace-char, s) (rw replace-char)
        ])
]

glob-append : (s u : String) → glob_to_sb_regex (s ◇ u) ≡ glob_to_sb_regex s ◇ glob_to_sb_regex u
unfolding glob_to_sb_regex
glob-append s u = simp replace-append

cons-split : (c : Char) (s : String) → c ∷ s ≡ (c ∷ []) ◇ s
cons-split c s = rw cons-append (rw nil-append)

-- The three passes over the glob, in their order, give what one pass over its characters gives: a
-- dot is escaped, a star and a question mark become wildcards, and no pass touches what an earlier
-- one wrote.
pub glob_to_sb_regex-single_pass : (glob : String) → glob_to_sb_regex glob ≡ regex_of glob
unfolding glob_to_sb_regex
glob_to_sb_regex-single_pass [] = refl
glob_to_sb_regex-single_pass (c ∷ s) =
    ap glob_to_sb_regex (cons-split c s)
    ∙ glob-append (c ∷ []) s
    ∙ rw (glob_char c, glob_to_sb_regex-single_pass s)
