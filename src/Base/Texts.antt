-- ===== src/Base/Texts.antt =====
-- The functions of Rust's `str` that the program calls: `contains`, `ends_with`, `trim_end`,
-- `replace` of a character, and the decimal form of an unsigned number.
use Prim.Native.Nat.{ℕ, zero, suc, ◌/◌, ◌%◌}
use Prim.Native.Char.{Char, code}
use Prim.Native.String.{String, [], ◌∷◌, ◌++◌}
use mathlib.Core.Path.{◌≡◌, refl, sym, subst}
use mathlib.Core.Logic.{◌↔◌}
use mathlib.Core.Bool.{Bool, true, ◌||◌, ◌&&◌}
use mathlib.Core.List.{List}
use mathlib.Core.Logic.{inl, inr, ∥∥₁_elim}
use native.Mathlib.Omega.{arith}
use text.Mathlib.Text.{◌==◌, starts_with}
use text.Mathlib.TextEquality.{eq_iff, starts_with_iff}
use text.Mathlib.TextBridge.{IsSuffix, IsInfix}
use text.Mathlib.TextLemmas.{
  nil-append, cons-append, append-eq-nil_iff, infix-cons, IsSuffix-trans, suffix-cons,
}
use text.Mathlib.TextPositions.{eq_refl}
use autonomous_agent_account.Base.Tests.{ltb, leb, nat_eq, if◌then◌else◌, Bool-cases, Bool-set}

unfoldable pub contains : String → String → Bool
contains [] t = t == ""
contains (c ∷ s) t = starts_with (c ∷ s) t || contains s t

unfoldable pub ends_with : String → String → Bool
ends_with [] t = t == ""
ends_with (c ∷ s) t = (c ∷ s) == t || ends_with s t

-- Unicode's White_Space.
is_whitespace : Char → Bool
is_whitespace c =
    let n = code c in
    leb 9 n && leb n 13
    || nat_eq n 32
    || nat_eq n 0x85
    || nat_eq n 0xa0
    || nat_eq n 0x1680
    || leb 0x2000 n && leb n 0x200a
    || nat_eq n 0x2028
    || nat_eq n 0x2029
    || nat_eq n 0x202f
    || nat_eq n 0x205f
    || nat_eq n 0x3000

unfoldable pub trim_end : String → String
unfolding is_whitespace
trim_end [] = []
trim_end (c ∷ s) = let rest = trim_end s in if rest == "" && is_whitespace c then [] else c ∷ rest

-- `s.replace(c, t)`: every occurrence of one character becomes a text.
unfoldable pub replace : ℕ → String → String → String
replace k t [] = []
replace k t (c ∷ s) = (if nat_eq (code c) k then t else c ∷ []) ++ replace k t s

digit : ℕ → String
digit n =
    if nat_eq n 0
    then "0"
    else if nat_eq n 1
    then "1"
    else if nat_eq n 2
    then "2"
    else if nat_eq n 3
    then "3"
    else if nat_eq n 4
    then "4"
    else if nat_eq n 5
    then "5"
    else if nat_eq n 6
    then "6"
    else if nat_eq n 7
    then "7"
    else if nat_eq n 8
    then "8"
    else "9"

show_from : ℕ → ℕ → String
show_from zero n = ""
show_from (suc fuel) n =
    let higher = show_from fuel (n / 10) in if ltb n 10 then digit n else higher ++ digit (n % 10)

-- `{}` of an unsigned integer. A number has fewer digits than one more than itself.
unfoldable pub show : ℕ → String
unfolding digit show_from
show n = show_from (suc n) n

abbrev pub concat_texts : List String → String
concat_texts List.[] = ""
concat_texts (List.◌∷◌ s ss) = s ++ concat_texts ss

contains-prefix : (s t : String) → starts_with s t ≡ true → contains s t ≡ true
unfolding contains
contains-prefix [] t h = (eq_iff t "").1 (append-eq-nil_iff.0 ((starts_with_iff [] t).0 h).1).0
contains-prefix (c ∷ s) t h = rw h

contains-append : (u t v : String) → contains ((u ++ t) ++ v) t ≡ true
unfolding contains
contains-append [] t v =
    rw nil-append (contains-prefix (t ++ v) t ((starts_with_iff (t ++ v) t).1 (v, refl)))
contains-append (c ∷ u) t v = rw (cons-append, cons-append) (ground (arith, contains-append u t v))

contains-IsInfix : (s t : String) → contains s t ≡ true → IsInfix t s
unfolding contains
contains-IsInfix [] t h = rw ((eq_iff t "").0 h) (∣ ("", "", refl) ∣₁)
contains-IsInfix (c ∷ s) t h = elim (Bool-cases (starts_with (c ∷ s) t)) [
  | inl e ↦ let (u, p) = (starts_with_iff (c ∷ s) t).0 e in ∣ ("", u, rw nil-append p) ∣₁
  | inr e ↦ infix-cons t (contains-IsInfix s t (rw e at h))
]

-- `contains` finds exactly the texts that lie inside.
pub contains_iff : (s t : String) → (contains s t ≡ true) ↔ IsInfix t s
contains_iff s t = (
  contains-IsInfix s t,
  λ h.
      ∥∥₁_elim h (Bool-set _ _)
        (λ (u, v, p). subst (λ x. contains x t ≡ true) p (contains-append u t v)),
)

ends_with-append : (u t : String) → ends_with (u ++ t) t ≡ true
unfolding ends_with
ends_with-append [] t = rw nil-append (go t)
  where
    go : (t : String) → ends_with t t ≡ true
    go [] = refl
    go (c ∷ t) = rw (eq_refl (c ∷ t))
ends_with-append (c ∷ u) t = rw cons-append (ground (arith, ends_with-append u t))

ends_with-IsSuffix : (s t : String) → ends_with s t ≡ true → IsSuffix t s
unfolding ends_with
ends_with-IsSuffix [] t h = rw ((eq_iff t "").0 h) ("", refl)
ends_with-IsSuffix (c ∷ s) t h = elim (Bool-cases ((c ∷ s) == t)) [
  | inl e ↦ ("", rw nil-append (sym ((eq_iff (c ∷ s) t).0 e)))
  | inr e ↦ IsSuffix-trans t (ends_with-IsSuffix s t (rw e at h)) (suffix-cons c s)
]

-- `ends_with` accepts exactly the texts at the end.
pub ends_with_iff : (s t : String) → (ends_with s t ≡ true) ↔ IsSuffix t s
ends_with_iff s t =
    (ends_with-IsSuffix s t, λ (u, p). subst (λ x. ends_with x t ≡ true) p (ends_with-append u t))
