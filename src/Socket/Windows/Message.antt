-- ===== src/Socket/Windows/Message.antt =====
-- src/internal/tftp_socket_impl_win32.cpp: the text of an error, without the spaces at its end.
use tftpserver.Prelude.{ℕ, ◌≡◌, refl, ap, Bool-cases, true, false, [], ◌∷◌, ◌++◌, Bytes, inl, inr}
use tftpserver.Socket.Windows.{isspace, keep, trimmed}

abbrev pub AllSpaces : Bytes → Type 0
AllSpaces [] = Unit
AllSpaces (ch ∷ chs) = (isspace ch ≡ true) × AllSpaces chs

-- The last byte, if there is one, is no space.
abbrev pub EndsVisible : Bytes → Type 0
EndsVisible [] = Unit
EndsVisible (ch ∷ []) = isspace ch ≡ false
EndsVisible (ch ∷ next ∷ chs) = EndsVisible (next ∷ chs)

-- What is kept, followed by spaces, is the text.
abbrev pub Trimmed : Bytes → Bytes → Type 0
Trimmed kept text =
    EndsVisible kept × ((spaces : Bytes) × AllSpaces spaces × (kept ++ spaces ≡ text))

pub keep-Trimmed :
    (ch : ℕ) (kept text : Bytes) → Trimmed kept text → Trimmed (keep ch kept) (ch ∷ text)
keep-Trimmed ch [] text (visible, (spaces, all, e)) = elim (Bool-cases (isspace ch)) [
  | inl space ↦ rw space (tt, (ch ∷ spaces, (space, all), ap (λ t. ch ∷ t) e))
  | inr other ↦ rw other (other, (spaces, all, ap (λ t. ch ∷ t) e))
]
keep-Trimmed ch (next ∷ kept) text (visible, (spaces, all, e)) =
    (visible, (spaces, all, ap (λ t. ch ∷ t) e))

pub trimmed-Trimmed : (text : Bytes) → Trimmed (trimmed text) text
unfolding trimmed
trimmed-Trimmed [] = (tt, ([], tt, refl))
trimmed-Trimmed (ch ∷ chs) = keep-Trimmed ch (trimmed chs) chs (trimmed-Trimmed chs)
