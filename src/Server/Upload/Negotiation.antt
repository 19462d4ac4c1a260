-- ===== src/Server/Upload/Negotiation.antt =====
-- The option acknowledgement that `HandleWriteRequest` writes by hand.
use tftpserver.Prelude.{
  ℕ, ◌+◌, ◌≤◌, ◌≡◌, ◌≢◌, ◌⊎◌, inl, inr, refl, ap, ◌∙◌, true, false, [], ◌∷◌, Option, none, some,
  Bytes, bytes_eq, bytes_eq_iff, length, All, arith, append_snoc, Bool-cases, Option-cases, codes,
  is_empty,
}
use tftpserver.Common.{op_value, oack, max_option_value_length}
use tftpserver.Options.{Options, lookup, Distinct, HashOrder}
use tftpserver.Options.Order.{Permᴰ-length}
use tftpserver.Packet.{TftpPacket, initial_packet, create_oack}
use tftpserver.Packet.Writer.{put_string, put_options, serialize_as, serialize}
use tftpserver.Packet.Reader.{deserialize}
use tftpserver.Packet.Reader.Entries.{IsField, IsEntry}
use tftpserver.Packet.Limits.{IsOptions, IsRequest, IsOptions-walk, lookup-walk, length-put_options}
use tftpserver.Packet.ReadBack.{read_oack}
use tftpserver.Server.Numbers.{stoi}
use tftpserver.Server.Upload.{within, in_range_or, negotiate, oack_options, oack_data}

abbrev pub negotiate_all : Options → Options
negotiate_all [] = []
negotiate_all ((name, value) ∷ m) = (name, negotiate name value) ∷ negotiate_all m

-- The value that is acknowledged for an option that the request has.
abbrev pub negotiated : Bytes → Option Bytes → Option Bytes
negotiated name none = none
negotiated name (some value) = some (negotiate name value)

in_range_or-cases :
    (low high : ℕ) (default value : Bytes)
    → (in_range_or low high default value ≡ value) ⊎ (in_range_or low high default value ≡ default)
unfolding in_range_or
in_range_or-cases low high default value = elim (Option-cases (stoi value)) [
  | inl e ↦ inr (rw (e, in_range_or) refl)
  | inr (n, e) ↦ elim (Bool-cases (within low high n)) [
    | inl good ↦ inl (rw (e, in_range_or, good) refl)
    | inr bad ↦ inr (rw (e, in_range_or, bad) refl)
  ]
]

-- The value is kept, or it is a default; the longer default is that of `blksize`.
negotiate-cases :
    (name value : Bytes)
    → (negotiate name value ≡ value)
      ⊎ ((negotiate name value ≡ codes "6")
          ⊎ ((bytes_eq name (codes "blksize") ≡ true) × (negotiate name value ≡ codes "512")))
unfolding negotiate
negotiate-cases name value = elim (Bool-cases (bytes_eq name (codes "tsize"))) [
  | inl tsize ↦ inl (rw tsize refl)
  | inr a ↦ elim (Bool-cases (bytes_eq name (codes "blksize"))) [
    | inl blksize ↦ elim (in_range_or-cases 8 65464 (codes "512") value) [
      | inl e ↦ inl (rw (a, blksize) e)
      | inr e ↦ inr (inr (blksize, rw (a, blksize) e))
    ]
    | inr b ↦ elim (Bool-cases (bytes_eq name (codes "timeout"))) [
      | inl timeout ↦ elim (in_range_or-cases 1 255 (codes "6") value) [
        | inl e ↦ inl (rw (a, b, timeout) e)
        | inr e ↦ inr (inl (rw (a, b, timeout) e))
      ]
      | inr c ↦ inl (rw (a, b, c) refl)
    ]
  ]
]

-- The loop writes what `Serialize` writes for the negotiated options.
oack_options-put_options : (m : Options) → oack_options m ≡ put_options (negotiate_all m)
unfolding oack_options put_options put_string
oack_options-put_options [] = refl
oack_options-put_options ((name, value) ∷ m) =
    rw (append_snoc name 0 _, append_snoc (negotiate name value) 0 _, oack_options-put_options m)
      refl

-- The server writes the acknowledgement by hand, and not with `Serialize`. When the map of the
-- negotiated values is walked in the order of the names that the map of the request is walked in, what
-- it writes is what `Serialize` writes for the packet that CreateOACK makes of the negotiated options.
pub serialize-create_oack :
    (h h' : HashOrder) (m : Options)
    → h'.walk (negotiate_all m) ≡ negotiate_all (h.walk m)
    → serialize h' (create_oack (negotiate_all m)) ≡ some (oack_data h m)
unfolding serialize serialize_as create_oack oack_data op_value
serialize-create_oack h h' m same_walk = rw (same_walk, oack_options-put_options (h.walk m)) refl

lookup-negotiate_all :
    (k : Bytes) (m : Options) → lookup k (negotiate_all m) ≡ negotiated k (lookup k m)
unfolding lookup
lookup-negotiate_all k [] = refl
lookup-negotiate_all k ((name, value) ∷ m) = elim (Bool-cases (bytes_eq name k)) [
  | inl same ↦ rw same (ap (λ n. some (negotiate n value)) ((bytes_eq_iff name k).0 same))
  | inr other ↦ rw other (lookup-negotiate_all k m)
]

negotiate_all-Distinct : (m : Options) → Distinct m → Distinct (negotiate_all m)
negotiate_all-Distinct [] d = tt
negotiate_all-Distinct ((name, value) ∷ m) d =
    (rw (lookup-negotiate_all name m, d.0) refl, negotiate_all-Distinct m d.1)

negotiate_all-IsEntry : (m : Options) → All IsEntry m → All IsEntry (negotiate_all m)
negotiate_all-IsEntry [] a = tt
negotiate_all-IsEntry ((name, value) ∷ m) a = (
  (
    a.0.0,
    elim (negotiate-cases name value) [
      | inl e ↦ rw e a.0.1
      | inr (inl e) ↦ rw e six
      | inr (inr (_, e)) ↦ rw e default_size
    ],
  ),
  negotiate_all-IsEntry m a.1,
)
  where
    six : IsField max_option_value_length (codes "6")
    six = record { filled = refl; no_nul = omega arith; fits = omega arith }

    default_size : IsField max_option_value_length (codes "512")
    default_size = record { filled = refl; no_nul = omega arith; fits = omega arith }

length-negotiate_all : (m : Options) → length (negotiate_all m) ≡ length m
length-negotiate_all [] = refl
length-negotiate_all ((name, value) ∷ m) = omega (arith, length-negotiate_all m)

filled-length : (s : Bytes) → is_empty s ≡ false → 1 ≤ length s
filled-length [] e = cc
filled-length (c ∷ s) e = omega arith

length-negotiate :
    (name value : Bytes) → 1 ≤ length value → length (negotiate name value) ≤ length value + 2
length-negotiate name value f = elim (negotiate-cases name value) [
  | inl e ↦ omega (arith, ap length e)
  | inr (inl e) ↦ omega (arith, ap length e)
  | inr (inr (_, e)) ↦ omega (arith, ap length e)
]

length-negotiate_other :
    (name value : Bytes)
    → 1 ≤ length value
    → bytes_eq name (codes "blksize") ≡ false
    → length (negotiate name value) ≤ length value
length-negotiate_other name value f other = elim (negotiate-cases name value) [
  | inl e ↦ omega (arith, ap length e)
  | inr (inl e) ↦ omega (arith, ap length e)
  | inr (inr (blksize, _)) ↦ absurd (ground (arith, other, blksize))
]

-- Without `blksize` the acknowledgement is no longer than the options of the request.
size_without :
    (m : Options)
    → All IsEntry m
    → lookup (codes "blksize") m ≡ none
    → length (put_options (negotiate_all m)) ≤ length (put_options m)
unfolding lookup
size_without [] a none_there = omega arith
size_without ((name, value) ∷ m) a none_there =
    elim (Bool-cases (bytes_eq name (codes "blksize"))) [
      | inl same ↦ absurd (ground (arith, none_there, same))
      | inr other ↦ omega (
        arith,
        length-put_options (name, value) m,
        length-put_options (name, negotiate name value) (negotiate_all m),
        length-negotiate_other name value (filled-length value a.0.1.filled) other,
        size_without m a.1 (rw other at none_there),
      )
    ]

-- And it is at most two bytes longer in any case.
size_grows :
    (m : Options)
    → All IsEntry m
    → Distinct m
    → length (put_options (negotiate_all m)) ≤ length (put_options m) + 2
size_grows [] a d = omega arith
size_grows ((name, value) ∷ m) a d = elim (Bool-cases (bytes_eq name (codes "blksize"))) [
  | inl same ↦ omega (
    arith,
    length-put_options (name, value) m,
    length-put_options (name, negotiate name value) (negotiate_all m),
    length-negotiate name value (filled-length value a.0.1.filled),
    size_without m a.1 (rw ((bytes_eq_iff name (codes "blksize")).0 same) at d.0),
  )
  | inr other ↦ omega (
    arith,
    length-put_options (name, value) m,
    length-put_options (name, negotiate name value) (negotiate_all m),
    length-negotiate_other name value (filled-length value a.0.1.filled) other,
    size_grows m a.1 d.1,
  )
]

IsOptions-negotiate_all :
    (room : ℕ) (m : Options) → IsOptions room m → room + 2 ≤ 514 → IsOptions 514 (negotiate_all m)
IsOptions-negotiate_all room m o fits = record {
  entries = negotiate_all-IsEntry m o.entries;
  distinct = negotiate_all-Distinct m o.distinct;
  count = omega (arith, length-negotiate_all m, o.count);
  size = omega (arith, size_grows m o.entries o.distinct, o.size);
}

walk_filled : (h : HashOrder) (m : Options) → m ≢ [] → negotiate_all (h.walk m) ≢ []
walk_filled h [] ne e = absurd (ne refl)
walk_filled h (x ∷ m) ne e =
    omega (
      arith,
      Permᴰ-length (h.walk_perm (x ∷ m)),
      length-negotiate_all (h.walk (x ∷ m)),
      ap length e,
    )

-- For a write request within the limits that has an option, what the server writes by hand is an
-- option acknowledgement that `Deserialize` reads, in whatever packet object: it has each option
-- of the request, and no other, with the negotiated value.
pub deserialize-oack_data :
    (h : HashOrder) (q p : TftpPacket)
    → IsRequest p
    → p.options ≢ []
    → (received : TftpPacket) × (deserialize q (oack_data h p.options) ≡ (received, true))
      × (received ≡ record initial_packet { op_code = oack; options = received.options })
      × ((k : Bytes) → lookup k received.options ≡ negotiated k (lookup k p.options))
unfolding oack_data
deserialize-oack_data h q p r ne =
    let walked = h.walk p.options in
    let fits =
      IsOptions-negotiate_all _ walked (IsOptions-walk h p.options r.options_fit) (omega arith) in
    (
      record initial_packet { op_code = oack; options = negotiate_all walked },
      rw (oack_options-put_options walked)
          (read_oack q (negotiate_all walked) (walk_filled h p.options ne) fits),
      refl,
      λ k.
          lookup-negotiate_all k walked
          ∙ ap (negotiated k) (lookup-walk h p.options k r.options_fit.distinct),
    )
