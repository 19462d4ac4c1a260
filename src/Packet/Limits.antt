-- ===== src/Packet/Limits.antt =====
-- The limits within which a packet can be sent, for src/tftp_packet.cpp.
use mathlib.Core.List.{Permᴰ}
use mathlib.Core.List.Permᴰ
use tftpserver.Prelude.{
  ℕ, ◌+◌, ◌≤◌, ◌<◌, ◌≡◌, refl, sym, ap, ◌∙◌, [], ◌∷◌, ◌++◌, some, Bytes, NoNul, length, ◌-◌, ◌≢◌,
  length-append, All, arith, codes, subst,
}
use tftpserver.Common.{
  read_request, write_request, data_block, acknowledge, error, oack, OpCode, TransferMode,
  net_ascii, octet, mail, max_filename_length, max_string_length, max_error_message_length,
  max_options_count, max_data_size, max_packet_size,
}
use tftpserver.Options.{Options, lookup, Distinct, HashOrder}
use tftpserver.Options.Order.{Permᴰ-length, Permᴰ-All, Permᴰ-Distinct, Permᴰ-lookup}
use tftpserver.Packet.{TftpPacket, initial_packet}
use tftpserver.Packet.Strings.{mode_to_string, string_to_mode}
use tftpserver.Packet.Writer.{put_string, put_options}
use tftpserver.Packet.Header.{IsNamedError}
use tftpserver.Packet.Reader.Entries.{IsField, IsEntry}

-- Options that fit the limits, in a packet with `room` bytes for them.
pub record IsOptions (room : ℕ) (m : Options) : Type 0 where
  pub entries : All IsEntry m
  pub distinct : Distinct m
  pub count : length m ≤ max_options_count
  pub size : length (put_options m) ≤ room

-- A mode is named, and its text is this.
pub record IsModeText (mode : TransferMode) (text : Bytes) : Type 0 where
  pub written : mode_to_string mode ≡ some text
  pub read_back : string_to_mode text ≡ some mode
  pub is_field : IsField max_string_length text
  pub short : length text ≤ 8

known_mode :
    (mode : TransferMode) (text : Bytes) {other : Bytes}
    → mode_to_string mode ≡ some text
    → string_to_mode text ≡ some mode
    → IsField max_string_length text
    → length text ≤ 8
    → mode_to_string mode ≡ some other
    → IsModeText mode other
known_mode mode text {other} w r f l h =
    let same : text ≡ other = cc in
    subst (IsModeText mode) same (record { written = w; read_back = r; is_field = f; short = l })

-- A mode that is written is read back.
pub mode_text :
    (mode : TransferMode) {text : Bytes} → mode_to_string mode ≡ some text → IsModeText mode text
unfolding mode_to_string string_to_mode
mode_text net_ascii = known_mode net_ascii (codes "netascii") refl refl field (omega arith)
  where
    field : IsField max_string_length (codes "netascii")
    field = record { filled = refl; no_nul = omega arith; fits = omega arith }
mode_text octet = known_mode octet (codes "octet") refl refl field (omega arith)
  where
    field : IsField max_string_length (codes "octet")
    field = record { filled = refl; no_nul = omega arith; fits = omega arith }
mode_text mail = known_mode mail (codes "mail") refl refl field (omega arith)
  where
    field : IsField max_string_length (codes "mail")
    field = record { filled = refl; no_nul = omega arith; fits = omega arith }
mode_text (TransferMode.unnamed n) = λ h. cc

pub length-put_options :
    (e : Bytes × Bytes) (m : Options)
    → length (put_options (e ∷ m)) ≡ length e.0 + length e.1 + 2 + length (put_options m)
unfolding put_options put_string
length-put_options (name, value) m = omega (
  arith,
  length-append (name ++ 0 ∷ []) ((value ++ 0 ∷ []) ++ put_options m),
  length-append (value ++ 0 ∷ []) (put_options m),
  length-append name (0 ∷ []),
  length-append value (0 ∷ []),
)

put_options-walk : {m n : Options} → Permᴰ m n → length (put_options m) ≡ length (put_options n)
put_options-walk Permᴰ.nil = refl
put_options-walk (Permᴰ.cons {a} {b} {l₁} {l₂} e p) = omega (
  arith,
  length-put_options a l₁,
  length-put_options b l₂,
  put_options-walk p,
  ap (λ c. length c.0) e,
  ap (λ c. length c.1) e,
)
put_options-walk (Permᴰ.swap {a} {b} {a'} {b'} {l} e f) = omega (
  arith,
  length-put_options a (b ∷ l),
  length-put_options b l,
  length-put_options a' (b' ∷ l),
  length-put_options b' l,
  ap (λ c. length c.0) e,
  ap (λ c. length c.1) e,
  ap (λ c. length c.0) f,
  ap (λ c. length c.1) f,
)
put_options-walk (Permᴰ.trans p q) = put_options-walk p ∙ put_options-walk q

-- A walk over options that fit gives options that fit, with the same value at each name.
pub IsOptions-walk :
    (h : HashOrder) {room : ℕ} (m : Options) → IsOptions room m → IsOptions room (h.walk m)
IsOptions-walk h m o =
    let p = Permᴰ.symm (h.walk_perm m) in
    record {
      entries = Permᴰ-All IsEntry p o.entries;
      distinct = Permᴰ-Distinct p o.distinct;
      count = omega (arith, Permᴰ-length p, o.count);
      size = omega (arith, put_options-walk p, o.size);
    }

pub lookup-walk :
    (h : HashOrder) (m : Options) (k : Bytes) → Distinct m → lookup k (h.walk m) ≡ lookup k m
lookup-walk h m k d = sym (Permᴰ-lookup k (Permᴰ.symm (h.walk_perm m)) d)

-- A request that can be sent: its fields fit the limits, and the fields that are not sent are unset.
pub record IsRequest (p : TftpPacket) : Type 0 where
  pub mode_name : Bytes
  pub mode_named : mode_to_string p.mode ≡ some mode_name
  pub filename_field : IsField max_filename_length p.filename
  pub options_fit :
      IsOptions (max_packet_size - (4 + length p.filename + length mode_name)) p.options
  pub others : p ≡ record initial_packet {
    op_code = p.op_code;
    filename = p.filename;
    mode = p.mode;
    options = p.options;
  }

pub record IsOack (p : TftpPacket) : Type 0 where
  pub options_fit : IsOptions (max_packet_size - 2) p.options
  pub some_option : p.options ≢ []
  pub others : p ≡ record initial_packet { op_code = p.op_code; options = p.options }

pub record IsData (p : TftpPacket) : Type 0 where
  pub block : p.block_number < 65536
  pub size : length p.payload ≤ max_data_size
  pub others : p ≡ record initial_packet {
    op_code = p.op_code;
    block_number = p.block_number;
    payload = p.payload;
  }

pub record IsAck (p : TftpPacket) : Type 0 where
  pub block : p.block_number < 65536
  pub others : p ≡ record initial_packet { op_code = p.op_code; block_number = p.block_number }

pub record IsError (p : TftpPacket) : Type 0 where
  pub code : IsNamedError p.error_code
  pub no_nul : NoNul p.error_message
  pub size : length p.error_message ≤ max_error_message_length
  pub others : p ≡ record initial_packet {
    op_code = p.op_code;
    error_code = p.error_code;
    error_message = p.error_message;
  }

-- What each kind of packet must satisfy to be sent.
abbrev pub IsSendableAs : OpCode → TftpPacket → Type 0
IsSendableAs read_request p = IsRequest p
IsSendableAs write_request p = IsRequest p
IsSendableAs data_block p = IsData p
IsSendableAs acknowledge p = IsAck p
IsSendableAs error p = IsError p
IsSendableAs oack p = IsOack p
IsSendableAs (OpCode.unnamed _) p = ⊥

abbrev pub IsSendable : TftpPacket → Type 0
IsSendable p = IsSendableAs p.op_code p
