-- ===== src/Path/Places.antt =====
-- Where the patterns and the characters of a path stand.
use tftpserver.Prelude.{
  ℕ, ◌≡◌, ◌≢◌, ◌↔◌, refl, sym, ap, ◌∙◌, Bool, true, false, [], ◌∷◌, ◌++◌, Bytes, is_empty, ◌==◌,
  map, All, append_assoc, inl, inr, arith, Bool-cases,
}
use tftpserver.Prelude.Search.{contains, contains_iff, contains_one_iff, Occurs}
use tftpserver.Path.{begins_with, ends_with}

false_iff : {P : Type 0} (b : Bool) → (b ≡ true) ↔ P → (b ≡ false) ↔ (¬ P)
false_iff b (f, g) = (
  λ h p. absurd (not_both h (g p)),
  λ never. elim (Bool-cases b) [ inl h ↦ absurd (never (f h)) | inr h ↦ h ],
)
  where
    not_both : b ≡ false → b ≡ true → ⊥
    not_both h k = cc

pub absent_iff : (p s : Bytes) → (contains p s ≡ false) ↔ (¬ Occurs p s)
absent_iff p s = false_iff (contains p s) (contains_iff p s)

-- What stands nowhere does not stand with more around it.
pub around : (a p b s : Bytes) → ¬ Occurs p s → contains (a ++ (p ++ b)) s ≡ false
around a p b s never = (absent_iff (a ++ (p ++ b)) s).1 (λ o. never (
  o.0 ++ a,
  b ++ o.1,
  o.2
      ∙ (ap (λ t. o.0 ++ t) (append_assoc a (p ++ b) o.1 ∙ ap (λ t. a ++ t) (append_assoc p b o.1))
          ∙ sym (append_assoc o.0 a (p ++ (b ++ o.1)))),
))

pub filled_iff : (s : Bytes) → (is_empty s ≡ false) ↔ (s ≢ [])
filled_iff [] = (λ h. absurd (ground (arith, h)), λ never. absurd (never refl))
filled_iff (c ∷ s) = (λ h e. cc, λ never. refl)

pub begins_with_iff :
    (c : ℕ) (s : Bytes) → (begins_with c s ≡ false) ↔ ((rest : Bytes) → s ≢ c ∷ rest)
begins_with_iff c [] = (λ h rest e. cc, λ never. refl)
begins_with_iff c (d ∷ s) = (
  λ h rest e. absurd (apart h (ap first e)),
  λ never. elim (Bool-cases (d == c)) [
    | inr h ↦ h
    | inl same ↦ absurd (never s (ap (λ x. x ∷ s) (ground (arith, same))))
  ],
)
  where
    first : Bytes → ℕ
    first [] = 0
    first (x ∷ xs) = x

    apart : d == c ≡ false → d ≡ c → ⊥
    apart h e = ground (arith, h, e)

pub ends_with_iff :
    (c : ℕ) (s : Bytes) → (ends_with c s ≡ true) ↔ ((front : Bytes) × (s ≡ front ++ (c ∷ [])))
ends_with_iff c s = (split s, λ o. ap (ends_with c) o.1 ∙ whole o.0)
  where
    split : (s : Bytes) → ends_with c s ≡ true → (front : Bytes) × (s ≡ front ++ (c ∷ []))
    split [] h = absurd (ground (arith, h))
    split (d ∷ []) h = ([], ap (λ x. x ∷ []) (ground (arith, h)))
    split (d ∷ e ∷ s) h = let (front, q) = split (e ∷ s) h in (d ∷ front, ap (λ t. d ∷ t) q)

    whole : (front : Bytes) → ends_with c (front ++ (c ∷ [])) ≡ true
    whole [] = ground arith
    whole (d ∷ []) = ground arith
    whole (d ∷ e ∷ front) = whole (e ∷ front)

-- The search for each of some characters.
pub singles_iff :
    (path cs : Bytes)
    → All (λ p. contains p path ≡ false) (map (λ c. c ∷ []) cs)
      ↔ All (λ c. All (λ d. d ≢ c) path) cs
singles_iff path [] = (λ _. tt, λ _. tt)
singles_iff path (c ∷ cs) =
    let one = contains_one_iff c path in
    let more = singles_iff path cs in (λ h. (one.0 h.0, more.0 h.1), λ h. (one.1 h.0, more.1 h.1))
