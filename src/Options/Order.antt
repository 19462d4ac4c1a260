-- ===== src/Options/Order.antt =====
-- What a walk over the map keeps, whatever its order.
use mathlib.Core.List.{Permᴰ}
use tftpserver.Prelude.{
  ◌≡◌, refl, ap, subst, ◌∙◌, none, List, ◌∷◌, Bytes, bytes_eq_iff, arith, length, All, suc,
}
use tftpserver.Options.{Options, lookup, Distinct}

pub Permᴰ-length {ℓ} : {A : Type ℓ} {xs ys : List A} → Permᴰ xs ys → length xs ≡ length ys
Permᴰ-length Permᴰ.nil = refl
Permᴰ-length (Permᴰ.cons e p) = ap suc (Permᴰ-length p)
Permᴰ-length (Permᴰ.swap e f) = refl
Permᴰ-length (Permᴰ.trans p q) = Permᴰ-length p ∙ Permᴰ-length q

pub Permᴰ-All {ℓ κ} :
    {A : Type ℓ} (P : A → Type κ) {xs ys : List A} → Permᴰ xs ys → All P xs → All P ys
Permᴰ-All P Permᴰ.nil a = tt
Permᴰ-All P (Permᴰ.cons e p) a = (rw e at a.0, Permᴰ-All P p a.1)
Permᴰ-All P (Permᴰ.swap e f) a = (rw f at a.1.0, (rw e at a.0, a.1.1))
Permᴰ-All P (Permᴰ.trans p q) a = Permᴰ-All P q (Permᴰ-All P p a)

-- Lookup in each order, where no key occurs twice.
pub Permᴰ-missing :
    (k : Bytes) {xs ys : Options} → Permᴰ xs ys → lookup k xs ≡ none → lookup k ys ≡ none
unfolding lookup
Permᴰ-missing k Permᴰ.nil h = h
Permᴰ-missing k (Permᴰ.cons {l₂} e p) h =
    subst (λ c. lookup k (c ∷ l₂) ≡ none) e (ground (arith, Permᴰ-missing k p))
Permᴰ-missing k (Permᴰ.swap {a} {a'} {l} e f) h =
    subst (λ c. lookup k (a' ∷ c ∷ l) ≡ none) e
      (subst (λ c. lookup k (c ∷ a ∷ l) ≡ none) f (ground arith))
Permᴰ-missing k (Permᴰ.trans p q) h = Permᴰ-missing k q (Permᴰ-missing k p h)

pub Permᴰ-Distinct : {xs ys : Options} → Permᴰ xs ys → Distinct xs → Distinct ys
unfolding lookup
Permᴰ-Distinct Permᴰ.nil d = tt
Permᴰ-Distinct (Permᴰ.cons {l₂} e p) d =
    subst (λ c. Distinct (c ∷ l₂)) e (Permᴰ-missing _ p d.0, Permᴰ-Distinct p d.1)
Permᴰ-Distinct (Permᴰ.swap {a} {b} {a'} {l} e f) d =
    subst (λ c. Distinct (a' ∷ c ∷ l)) e
      (subst (λ c. Distinct (c ∷ a ∷ l)) f
        (ground (arith, bytes_eq_iff a.0 b.0, bytes_eq_iff b.0 a.0)))
Permᴰ-Distinct (Permᴰ.trans p q) d = Permᴰ-Distinct q (Permᴰ-Distinct p d)

pub Permᴰ-lookup :
    (k : Bytes) {xs ys : Options} → Permᴰ xs ys → Distinct xs → lookup k xs ≡ lookup k ys
unfolding lookup
Permᴰ-lookup k Permᴰ.nil d = refl
Permᴰ-lookup k (Permᴰ.cons {a} {l₁} {l₂} e p) d =
    subst (λ c. lookup k (a ∷ l₁) ≡ lookup k (c ∷ l₂)) e (ground (arith, Permᴰ-lookup k p d.1))
Permᴰ-lookup k (Permᴰ.swap {a} {b} {a'} {l} e f) d =
    subst (λ c. lookup k (a ∷ b ∷ l) ≡ lookup k (a' ∷ c ∷ l)) e
      (subst (λ c. lookup k (a ∷ b ∷ l) ≡ lookup k (c ∷ a ∷ l)) f
        (ground (arith, bytes_eq_iff a.0 k, bytes_eq_iff b.0 k, bytes_eq_iff b.0 a.0)))
Permᴰ-lookup k (Permᴰ.trans p q) d = Permᴰ-lookup k p d ∙ Permᴰ-lookup k q (Permᴰ-Distinct p d)
