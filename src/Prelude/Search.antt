-- ===== src/Prelude/Search.antt =====
-- `std::string::find` and the comparison of a prefix, on byte sequences.
use Prim.Native.Nat.{ℕ}
use mathlib.Core.Path.{◌≡◌, refl, ap, ◌∙◌}
use mathlib.Core.Bool.{Bool, true, false, ◌&&◌, ◌||◌}
use mathlib.Core.Logic.{◌↔◌, ◌≢◌, inl, inr}
use mathlib.Core.List.{[], ◌∷◌, ◌++◌}
use native.Mathlib.Omega.{arith}
use tftpserver.Prelude.Tests.{◌==◌, leb, Bool-cases}
use tftpserver.Prelude.Lists.{length, take, All}
use tftpserver.Prelude.Text.{Bytes, bytes_eq, NoNul}

abbrev pub starts_with : Bytes → Bytes → Bool
starts_with [] s = true
starts_with (x ∷ xs) [] = false
starts_with (x ∷ xs) (y ∷ ys) = x == y && starts_with xs ys

-- `s.find(pattern) != npos`
unfoldable pub contains : Bytes → Bytes → Bool
contains pattern [] = starts_with pattern []
contains pattern (c ∷ cs) = let rest = contains pattern cs in starts_with pattern (c ∷ cs) || rest

unfoldable pub contains_char : ℕ → Bytes → Bool
contains_char c [] = false
contains_char c (d ∷ s) = let rest = contains_char c s in d == c || rest

pub starts_with-append : (xs ys : Bytes) → starts_with xs (xs ++ ys) ≡ true
starts_with-append [] ys = refl
starts_with-append (x ∷ xs) ys = ground (arith, starts_with-append xs ys)

-- A pattern is found where it stands.
pub contains-append : (pattern a b : Bytes) → contains pattern (a ++ (pattern ++ b)) ≡ true
unfolding contains
contains-append [] [] [] = refl
contains-append [] [] (c ∷ b) = refl
contains-append (p ∷ ps) [] b = ground (arith, starts_with-append ps b)
contains-append pattern (c ∷ a) b = ground (arith, contains-append pattern a b)

pub contains_char_iff : (s : Bytes) → (contains_char 0 s ≡ false) ↔ NoNul s
unfolding contains_char
contains_char_iff [] = (λ _. tt, λ _. refl)
contains_char_iff (c ∷ s) = ground (arith, contains_char_iff s)

-- `s.size() >= prefix.size() && s.substr(0, prefix.size()) == prefix`
unfoldable pub has_prefix : Bytes → Bytes → Bool
has_prefix p s = leb (length p) (length s) && bytes_eq (take (length p) s) p

pub has_prefix_iff : (p s : Bytes) → (has_prefix p s ≡ true) ↔ ((rest : Bytes) × (s ≡ p ++ rest))
unfolding has_prefix
has_prefix_iff p s = (split p s, λ r. rw r.1 (whole p r.0))
  where
    split : (p s : Bytes) → has_prefix p s ≡ true → (rest : Bytes) × (s ≡ p ++ rest)
    split [] s h = (s, refl)
    split (x ∷ p) [] h = absurd (ground (arith, h))
    split (x ∷ p) (y ∷ s) h =
        let (rest, e) = split p s (ground (arith, h)) in
        let same : y ≡ x = ground (arith, h) in (rest, cc)

    whole : (p rest : Bytes) → has_prefix p (p ++ rest) ≡ true
    whole [] rest = ground arith
    whole (x ∷ p) rest = ground (arith, whole p rest)

-- A sequence stands in another one.
abbrev pub Occurs : Bytes → Bytes → Type 0
Occurs pattern s = (before : Bytes) × (after : Bytes) × (s ≡ before ++ (pattern ++ after))

starts_with-split : (p s : Bytes) → starts_with p s ≡ true → (rest : Bytes) × (s ≡ p ++ rest)
starts_with-split [] s h = (s, refl)
starts_with-split (x ∷ p) [] h = absurd (ground (arith, h))
starts_with-split (x ∷ p) (y ∷ s) h =
    let (rest, e) = starts_with-split p s (ground (arith, h)) in
    let same : y ≡ x = ground (arith, h) in (rest, cc)

contains-Occurs : (p s : Bytes) → contains p s ≡ true → Occurs p s
unfolding contains
contains-Occurs p [] h = let (rest, e) = starts_with-split p [] h in ([], rest, e)
contains-Occurs p (c ∷ s) h = elim (Bool-cases (starts_with p (c ∷ s))) [
  | inl here ↦ let (rest, e) = starts_with-split p (c ∷ s) here in ([], rest, e)
  | inr later ↦
      let (before, after, e) = contains-Occurs p s (ground (arith, h, later)) in
      (c ∷ before, after, ap (λ t. c ∷ t) e)
]

pub contains_iff : (p s : Bytes) → (contains p s ≡ true) ↔ Occurs p s
contains_iff p s = (contains-Occurs p s, λ o. ap (contains p) o.2 ∙ contains-append p o.0 o.1)

-- The search for one character.
pub contains_one_iff : (c : ℕ) (s : Bytes) → (contains (c ∷ []) s ≡ false) ↔ All (λ d. d ≢ c) s
unfolding contains
contains_one_iff c [] = (λ _. tt, λ _. refl)
contains_one_iff c (d ∷ s) = ground (arith, contains_one_iff c s)
