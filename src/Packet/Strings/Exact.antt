-- ===== src/Packet/Strings/Exact.antt =====
-- `read_string_validated` reads exactly the terminated strings within the limit.
use tftpserver.Prelude.{
  ℕ, zero, suc, ◌+◌, ◌≤◌, ◌≡◌, refl, ap, ◌∙◌, ◌↔◌, ◌⊎◌, inl, inr, false, [], ◌∷◌, ◌++◌, none, some,
  Bytes, NoNul, ==_iff, ◌==◌, length, get_elem?, drop, arith, append-nil, append_snoc,
  get_elem?-drop, get_elem?-split, Option-cases, Bool-cases, drop-add, length_of_drop,
}
use native.Mathlib.Nat.{add-zero}
use tftpserver.Packet.Strings.{scan_string, finish_string, read_string_validated}

-- The string `s` and its terminator stand at `offset`, and `next` is behind them.
pub record StringAt (packet : Bytes) (offset max_length : ℕ) (s : Bytes) (next : ℕ) : Type 0 where
  pub no_nul : NoNul s
  pub fits : length s ≤ max_length
  pub stands : drop offset packet ≡ s ++ 0 ∷ drop next packet
  pub next_is : next ≡ offset + length s + 1

scan_string-run :
    (d s : Bytes) (offset left : ℕ) (acc rest : Bytes)
    → NoNul s
    → length s ≤ left
    → drop offset d ≡ s ++ 0 ∷ rest
    → scan_string d offset left acc ≡ (acc ++ s, offset + length s)
unfolding scan_string
scan_string-run d [] offset zero acc rest n l h = ground (arith, append-nil acc)
scan_string-run d [] offset (suc left) acc rest n l h =
    ground (arith, append-nil acc, get_elem?-drop d offset h)
scan_string-run d (c ∷ s) offset zero acc rest n l h = absurd (omega arith)
scan_string-run d (c ∷ s) offset (suc left) acc rest n l h = ground (
  arith,
  get_elem?-drop d offset h,
  append_snoc acc c s,
  scan_string-run d s (offset + 1) left (acc ++ c ∷ []) rest n.1 (omega arith)
      (drop-add d (c ∷ []) (s ++ 0 ∷ rest) offset h),
)

-- A terminated string within the limit is read, up to behind its terminator.
pub read_string_validated-run :
    (d s : Bytes) (offset max_length : ℕ) (rest : Bytes)
    → NoNul s
    → length s ≤ max_length
    → drop offset d ≡ s ++ 0 ∷ rest
    → read_string_validated d offset max_length ≡ some (s, offset + length s + 1)
unfolding read_string_validated
read_string_validated-run d s offset max_length rest n l h =
    rw (scan_string-run d s offset max_length [] rest n l h, read_string_validated)
      (ground (
        arith,
        get_elem?-drop d (offset + length s) (drop-add d s (0 ∷ rest) offset h),
        length_of_drop d rest (offset + length s) (drop-add d s (0 ∷ rest) offset h),
      ))

-- Where the loop stops: at the end, at a terminator, or at the limit.
record Scanned (d : Bytes) (offset left : ℕ) (acc : Bytes) : Type 0 where
  read : Bytes
  no_nul : NoNul read
  fits : length read ≤ left
  result_is : scan_string d offset left acc ≡ (acc ++ read, offset + length read)
  stands : drop offset d ≡ read ++ drop (offset + length read) d
  stops :
      (get_elem? d (offset + length read) ≡ none)
      ⊎ (get_elem? d (offset + length read) ≡ some 0)
      ⊎ (length read ≡ left)

Scanned-here :
    (d : Bytes) (offset left : ℕ) (acc : Bytes)
    → scan_string d offset left acc ≡ (acc, offset)
    → (get_elem? d offset ≡ none) ⊎ (get_elem? d offset ≡ some 0) ⊎ (0 ≡ left)
    → Scanned d offset left acc
Scanned-here d offset left acc e stops = record {
  read = [];
  no_nul = tt;
  fits = omega arith;
  result_is = rw (append-nil, add-zero) e;
  stands = rw add-zero;
  stops = rw add-zero stops;
}

Scanned-more :
    (d : Bytes) (offset left : ℕ) (acc : Bytes) (c : ℕ)
    → get_elem? d offset ≡ some c
    → (c == 0) ≡ false
    → Scanned d (offset + 1) left (acc ++ c ∷ [])
    → Scanned d offset (suc left) acc
unfolding scan_string
Scanned-more d offset left acc c e f r =
    let shift : offset + length (c ∷ r.read) ≡ offset + 1 + length r.read = omega arith in
    record {
      read = c ∷ r.read;
      no_nul = (λ z. cc ((==_iff c 0).1 z), r.no_nul);
      fits = omega (arith, r.fits);
      result_is = rw shift (ground (arith, append_snoc acc c r.read, r.result_is));
      stands = rw shift (get_elem?-split d offset c e ∙ ap (◌∷◌ c) r.stands);
      stops = rw shift (ground (arith, r.stops));
    }

scan_string-Scanned : (d : Bytes) (offset left : ℕ) (acc : Bytes) → Scanned d offset left acc
scan_string-Scanned d offset zero acc =
    Scanned-here d offset zero acc (unfold scan_string in refl) (inr (inr refl))
scan_string-Scanned d offset (suc left) acc = elim (Option-cases (get_elem? d offset)) [
  | inl e ↦ Scanned-here d offset (suc left) acc (unfold scan_string in ground arith) (inl e)
  | inr (c, e) ↦ elim (Bool-cases (c == 0)) [
    | inl z ↦
        Scanned-here d offset (suc left) acc (unfold scan_string in ground arith)
          (inr (inl (ground arith)))
    | inr f ↦
        Scanned-more d offset left acc c e f
          (scan_string-Scanned d (offset + 1) left (acc ++ c ∷ []))
  ]
]

finish_string_zero :
    (d : Bytes) (max_length : ℕ) (read : Bytes) (offset : ℕ) {s : Bytes} {next : ℕ}
    → (get_elem? d offset ≡ none) ⊎ (get_elem? d offset ≡ some 0) ⊎ (length read ≡ max_length)
    → finish_string d max_length (read, offset) ≡ some (s, next)
    → (s ≡ read) × (next ≡ offset + 1) × (get_elem? d offset ≡ some 0)
unfolding finish_string
finish_string_zero d max_length read offset (inl e) h = ground arith
finish_string_zero d max_length read offset (inr (inl e)) h = ground arith
finish_string_zero d max_length read offset (inr (inr e)) h = ground arith

-- What was read is a terminated string within the limit, and the next offset is behind it.
pub read_string_validated-StringAt :
    (d : Bytes) (offset max_length : ℕ) {s : Bytes} {next : ℕ}
    → read_string_validated d offset max_length ≡ some (s, next)
    → StringAt d offset max_length s next
unfolding read_string_validated
read_string_validated-StringAt d offset max_length {s} {next} h =
    let r = scan_string-Scanned d offset max_length [] in
    let done : finish_string d max_length (r.read, offset + length r.read) ≡ some (s, next) =
      ground (arith, r.result_is) in
    let (same, next_is, zero_at) = finish_string_zero d max_length r.read _ r.stops done in
    record {
      no_nul = rw same r.no_nul;
      fits = rw same r.fits;
      stands = rw (same, next_is) (r.stands ∙ ap (◌++◌ r.read) (get_elem?-split d _ 0 zero_at));
      next_is = rw same next_is;
    }

-- The next offset is within the input.
pub StringAt-next-le :
    {d : Bytes} {offset max_length : ℕ} {s : Bytes} {next : ℕ}
    → StringAt d offset max_length s next
    → next ≤ length d
StringAt-next-le {d} {offset} {max_length} {s} {next} a = omega (
  arith,
  a.next_is,
  length_of_drop d (drop next d) (offset + length s)
      (drop-add d s (0 ∷ drop next d) offset a.stands),
)

-- A string and a next offset are the result exactly when the string, without a terminator in it
-- and within the limit, stands at the offset with its terminator, and the next offset follows.
pub read_string_validated_iff :
    (d : Bytes) (offset max_length : ℕ) (s : Bytes) (next : ℕ)
    → (read_string_validated d offset max_length ≡ some (s, next))
      ↔ StringAt d offset max_length s next
read_string_validated_iff d offset max_length s next = (
  read_string_validated-StringAt d offset max_length,
  λ a.
      rw a.next_is
        (read_string_validated-run d s offset max_length (drop next d) a.no_nul a.fits a.stands),
)
