-- ===== src/Packet/Accepted.antt =====
-- What `Deserialize` accepts is within the limits, and can be sent again.
use tftpserver.Prelude.{
  ◌≤◌, ◌<◌, ◌≡◌, ◌≢◌, ap, ◌∙◌, refl, sym, subst, ◌⊎◌, inl, inr, true, false, [], ◌∷◌, Bytes,
  AreBytes, length, drop, arith, Option-cases, length-drop,
}
use tftpserver.Common.{
  OpCode, read_request, write_request, data_block, acknowledge, error, oack, op_of_value,
  error_of_value,
}
use tftpserver.Options.{Options}
use tftpserver.Packet.{TftpPacket, initial_packet}
use tftpserver.Packet.Strings.{read_string_validated}
use tftpserver.Packet.Strings.Exact.{read_string_validated-StringAt}
use tftpserver.Packet.Reader.{
  get_u16, read_request_fields, read_options, deserialize_request, deserialize_data,
  deserialize_ack, deserialize_error, deserialize_oack, deserialize_as, deserialize,
}
use tftpserver.Packet.Reader.Fields.{
  u16_range, error_named, read_request_fields-lem, IsOptions-mono,
}
use tftpserver.Packet.Reader.Found.{read_options-IsOptions}
use tftpserver.Packet.Header.{
  bad_size, bad_op, handed, deserialize-Opens, op_of_value_out, op_of_value-op_value,
}
use tftpserver.Packet.Limits.{
  IsOptions, IsRequest, IsOack, IsData, IsAck, IsError, IsSendable, IsSendableAs,
}

-- A packet that can be sent again, or an option acknowledgement with no option.
abbrev IsResendable : OpCode → TftpPacket → Type 0
IsResendable op p = IsSendableAs op p ⊎ ((op ≡ oack) × (p.options ≡ []))

module _ (d : Bytes) (b : AreBytes d) (l : length d ≤ 516) {p : TftpPacket} where
  accepted-IsRequest :
      (op : OpCode)
      → deserialize_request (record initial_packet { op_code = op }) d ≡ (p, true)
      → IsRequest p
  unfolding deserialize_request
  accepted-IsRequest op h = elim (Option-cases (read_request_fields d)) [
    | inl e ↦ absurd (ground (arith, e))
    | inr (f, e) ↦
        let r = read_request_fields-lem d f l e in
        let same : record initial_packet {
          op_code = op;
          filename = f.filename;
          mode = f.mode;
          options = f.options;
        }
            ≡ p =
          ground (arith, e) in
        subst IsRequest same (record {
          mode_name = r.mode_name;
          mode_named = r.mode_named;
          filename_field = r.filename_field;
          options_fit = r.options_fit;
          others = refl;
        })
  ]

  accepted_oack :
      deserialize_oack (record initial_packet { op_code = oack }) d ≡ (p, true)
      → IsOack p ⊎ (p.options ≡ [])
  unfolding deserialize_oack
  accepted_oack h = elim (Option-cases (read_options d 2)) [
    | inl e ↦ absurd (ground (arith, e))
    | inr (m, e) ↦
        let same : record initial_packet { op_code = oack; options = m } ≡ p = ground (arith, e) in
        subst (λ r. IsOack r ⊎ (r.options ≡ [])) same
          (oack_options m (IsOptions-mono (omega arith) (read_options-IsOptions d 2 e)))
  ]
    where
      oack_options :
          (m : Options)
          → IsOptions 514 m
          → IsOack (record initial_packet { op_code = oack; options = m }) ⊎ (m ≡ [])
      oack_options [] o = inr refl
      oack_options (x ∷ m) o =
          inl (record { options_fit = o; some_option = λ e. cc; others = refl })

  accepted-IsData :
      deserialize_data (record initial_packet { op_code = data_block }) d ≡ (p, true) → IsData p
  unfolding deserialize_data
  accepted-IsData h =
      let same : record initial_packet {
        op_code = data_block;
        block_number = get_u16 d 2;
        payload = drop 4 d;
      }
          ≡ p =
        ground arith in
      let size : length (drop 4 d) ≤ 512 = omega (arith, length-drop 4 d) in
      subst IsData same (record { block = u16_range d 2 b; size = size; others = refl })

  accepted-IsAck :
      deserialize_ack (record initial_packet { op_code = acknowledge }) d ≡ (p, true) → IsAck p
  unfolding deserialize_ack
  accepted-IsAck h =
      let same : record initial_packet { op_code = acknowledge; block_number = get_u16 d 2 } ≡ p =
        ground arith in
      subst IsAck same (record { block = u16_range d 2 b; others = refl })

  accepted_error :
      deserialize_error (record initial_packet { op_code = error }) d ≡ (p, true) → IsError p
  unfolding deserialize_error
  accepted_error h = elim (Option-cases (read_string_validated d 4 255)) [
    | inl e ↦ absurd (ground (arith, e))
    | inr ((message, next), e) ↦
        let same : record initial_packet {
          op_code = error;
          error_code = error_of_value (get_u16 d 2);
          error_message = message;
        }
            ≡ p =
          ground (arith, e) in
        let code : get_u16 d 2 ≤ 7 = ground (arith, e) in
        let stands = read_string_validated-StringAt d 4 255 e in
        subst IsError same (record {
          code = error_named (get_u16 d 2) code;
          no_nul = stands.no_nul;
          size = stands.fits;
          others = refl;
        })
  ]

  accepted_as :
      (op : OpCode)
      → deserialize_as op (record initial_packet { op_code = op }) d ≡ (p, true)
      → IsResendable op p
  unfolding deserialize_as
  accepted_as read_request h = inl (accepted-IsRequest read_request h)
  accepted_as write_request h = inl (accepted-IsRequest write_request h)
  accepted_as data_block h = inl (accepted-IsData h)
  accepted_as acknowledge h = inl (accepted-IsAck h)
  accepted_as error h = inl (accepted_error h)
  accepted_as oack h = elim (accepted_oack h) [ inl o ↦ inl o | inr e ↦ inr (refl, e) ]
  accepted_as (OpCode.unnamed n) h = absurd (ground arith)

keeps_op_code :
    (op : OpCode) (r : TftpPacket) (d : Bytes) → (deserialize_as op r d).0.op_code ≡ r.op_code
unfolding deserialize_as deserialize_request deserialize_data deserialize_ack deserialize_error
    deserialize_oack
keeps_op_code read_request r d = ground arith
keeps_op_code _ r d = ground arith

-- Whatever `Deserialize` accepts, in whatever packet object, is a packet within all the limits, of
-- a named opcode, which can be sent again, or an option acknowledgement with no option in it.
pub deserialize-IsSendable :
    (q p : TftpPacket) (d : Bytes)
    → AreBytes d
    → deserialize q d ≡ (p, true)
    → IsSendable p ⊎ ((p.op_code ≡ oack) × (p.options ≡ []))
deserialize-IsSendable q p d b h = elim (deserialize-Opens q d) [
  | bad_size s e ↦ absurd (ground arith)
  | bad_op s r e ↦ absurd (ground arith)
  | handed s op n v e ↦
      let body : deserialize_as op (record initial_packet { op_code = op }) d ≡ (p, true) = cc in
      let same : op ≡ p.op_code =
        ground (arith, keeps_op_code op (record initial_packet { op_code = op }) d) in
      subst (λ o. IsResendable o p) same (accepted_as d b s.1 op body)
]

refused_as :
    (op : OpCode) (d : Bytes) {p : TftpPacket}
    → length d ≤ 516
    → deserialize_as op (record initial_packet { op_code = op }) d ≡ (p, false)
    → p ≡ record initial_packet { op_code = op }
unfolding deserialize_as deserialize_request deserialize_data deserialize_ack deserialize_error
    deserialize_oack
refused_as read_request d l h = ground arith
refused_as _ d l h = ground arith

-- A failure leaves every member as a new packet has it but the opcode, which is the one that was
-- read, or the initial one if the size was refused.
pub deserialize_failure :
    (q p : TftpPacket) (d : Bytes)
    → deserialize q d ≡ (p, false)
    → (p ≡ record initial_packet { op_code = p.op_code })
      × ((p.op_code ≡ op_of_value (get_u16 d 0))
          ⊎ ((p ≡ initial_packet) × ((length d < 4) ⊎ (516 < length d))))
deserialize_failure q p d h = elim (deserialize-Opens q d) [
  | bad_size s e ↦ let same : p ≡ initial_packet = cc in (rw same, inr (same, s))
  | bad_op s r e ↦
      let same : p ≡ record initial_packet { op_code = OpCode.unnamed (get_u16 d 0) } = cc in
      rw same (refl, inl (sym (op_of_value_out (get_u16 d 0) r)))
  | handed s op n v e ↦
      let body : deserialize_as op (record initial_packet { op_code = op }) d ≡ (p, false) = cc in
      rw (refused_as op d s.1 body) (refl, inl (rw v (sym (op_of_value-op_value op n))))
]

keeps_filename :
    (op : OpCode) (r : TftpPacket) (d : Bytes)
    → (op ≡ read_request)
      ⊎ ((op ≡ write_request) ⊎ ((deserialize_as op r d).0.filename ≡ r.filename))
unfolding deserialize_as deserialize_data deserialize_ack deserialize_error deserialize_oack
keeps_filename read_request r d = inl refl
keeps_filename write_request r d = inr (inl refl)
keeps_filename data_block r d = inr (inr (ground arith))
keeps_filename acknowledge r d = inr (inr (ground arith))
keeps_filename error r d = inr (inr (ground arith))
keeps_filename oack r d = inr (inr (ground arith))
keeps_filename (OpCode.unnamed n) r d = inr (inr refl)

-- A packet that is accepted and is no request has no file name.
pub deserialize-filename :
    (q p : TftpPacket) (d : Bytes)
    → deserialize q d ≡ (p, true)
    → p.op_code ≢ read_request
    → p.op_code ≢ write_request
    → p.filename ≡ []
deserialize-filename q p d h no_read no_write = elim (deserialize-Opens q d) [
  | bad_size s e ↦ absurd (ground arith)
  | bad_op s r e ↦ absurd (ground arith)
  | handed s op n v e ↦
      let r : TftpPacket = record initial_packet { op_code = op } in
      let body : deserialize_as op r d ≡ (p, true) = cc in
      let same : op ≡ p.op_code = ground (arith, keeps_op_code op r d) in
      elim (keeps_filename op r d) [
        | inl is_read ↦ absurd (no_read (sym same ∙ is_read))
        | inr (inl is_write) ↦ absurd (no_write (sym same ∙ is_write))
        | inr (inr kept) ↦ ap (λ o. o.0.filename) (sym body) ∙ kept
      ]
]
