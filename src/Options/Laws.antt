-- ===== src/Options/Laws.antt =====
-- The map laws of `lookup` and `insert`.
use tftpserver.Prelude.{
  ◌≡◌, refl, [], ◌∷◌, ◌++◌, none, some, Bytes, bytes_eq, bytes_eq_iff, if◌then◌else◌, arith,
  Bool-cases, inl, inr, ◌+◌, ◌≤◌, length, All,
}
use tftpserver.Options.{Options, lookup, insert, Distinct}

-- A read after a write, at every key.
pub lookup-insert :
    (k j : Bytes) (v : Bytes) (m : Options)
    → lookup j (insert k v m) ≡ (if bytes_eq k j then some v else lookup j m)
unfolding lookup insert
lookup-insert k j v [] = refl
lookup-insert k j v ((i, w) ∷ m) =
    ground (arith, bytes_eq_iff k j, bytes_eq_iff i k, bytes_eq_iff i j, lookup-insert k j v m)

-- A new key goes behind the entries.
pub insert_fresh : (k v : Bytes) (m : Options) → lookup k m ≡ none → insert k v m ≡ m ++ (k, v) ∷ []
unfolding lookup insert
insert_fresh k v [] h = refl
insert_fresh k v ((j, w) ∷ m) h = ground (arith, insert_fresh k v m)

pub length-insert : (k v : Bytes) (m : Options) → length (insert k v m) ≤ length m + 1
unfolding insert
length-insert k v [] = omega arith
length-insert k v ((j, w) ∷ m) = ground (arith, length-insert k v m)

pub insert-Distinct : (k v : Bytes) (m : Options) → Distinct m → Distinct (insert k v m)
unfolding insert lookup
insert-Distinct k v [] d = (refl, tt)
insert-Distinct k v ((j, w) ∷ m) d =
    ground
      (arith, insert-Distinct k v m d.1, lookup-insert k j v m, bytes_eq_iff j k, bytes_eq_iff k j)

pub insert-All {κ} :
    (P : Bytes × Bytes → Type κ) (k v : Bytes) (m : Options)
    → P (k, v)
    → All P m
    → All P (insert k v m)
unfolding insert
insert-All P k v [] h a = (h, tt)
insert-All P k v ((j, w) ∷ m) h a = elim (Bool-cases (bytes_eq j k)) [
  | inl same ↦ rw same (rw ((bytes_eq_iff j k).0 same) h, a.1)
  | inr other ↦ rw other (a.0, insert-All P k v m h a.1)
]
