-- ===== src/Packet/RoundTrip.antt =====
-- What `Serialize` writes, `Deserialize` reads back: each kind of packet that fits the limits.
use tftpserver.Prelude.{
  ◌≡◌, ◌≢◌, refl, ap, ◌∙◌, ◌⊎◌, inl, inr, true, [], ◌∷◌, ◌++◌, some, Bytes, length, arith,
}
use tftpserver.Common.{
  OpCode, read_request, write_request, data_block, acknowledge, error, oack, op_value, error_value,
}
use tftpserver.Options.{Options, lookup, HashOrder}
use tftpserver.Options.Order.{Permᴰ-length}
use tftpserver.Packet.{TftpPacket}
use tftpserver.Packet.Writer.{
  put_u16, put_string, put_options, serialize_request, serialize_as, serialize,
}
use tftpserver.Packet.Reader.{deserialize}
use tftpserver.Packet.ReadBack.{read_ack, read_data, read_error, read_oack, read_request_run}
use tftpserver.Packet.Limits.{
  mode_text, IsOptions-walk, lookup-walk, IsRequest, IsOack, IsData, IsAck, IsError, IsSendable,
  IsSendableAs,
}

-- The packet `p` is written, and a packet object `q` that reads the bytes becomes `p`, up to the
-- order of the options: each name has the same value.
pub record RoundTrips (h : HashOrder) (p q : TftpPacket) : Type 0 where
  pub sent : Bytes
  pub written : serialize h p ≡ some sent
  pub received : TftpPacket
  pub read : deserialize q sent ≡ (received, true)
  pub same_fields : received ≡ record p { options = received.options }
  pub same_options : (k : Bytes) → lookup k received.options ≡ lookup k p.options

walk-ne-nil : (h : HashOrder) (m : Options) → m ≢ [] → h.walk m ≢ []
walk-ne-nil h [] ne e = ne refl
walk-ne-nil h (x ∷ m) ne e = omega (arith, Permᴰ-length (h.walk_perm (x ∷ m)), ap length e)

module _ (h : HashOrder) (q p : TftpPacket) where
  RoundTrips-ack : p.op_code ≡ acknowledge → IsAck p → RoundTrips h p q
  RoundTrips-ack e a = record {
    sent = put_u16 4 ++ put_u16 p.block_number;
    written = unfold serialize serialize_as op_value in ground arith;
    received = p;
    read = read_ack q p.block_number a.block ∙ ground (arith, a.others);
    same_fields = refl;
    same_options = λ k. refl;
  }

  RoundTrips-data : p.op_code ≡ data_block → IsData p → RoundTrips h p q
  RoundTrips-data e a = record {
    sent = put_u16 3 ++ (put_u16 p.block_number ++ p.payload);
    written = unfold serialize serialize_as op_value in ground arith;
    received = p;
    read = read_data q p.block_number p.payload a.block a.size ∙ ground (arith, a.others);
    same_fields = refl;
    same_options = λ k. refl;
  }

  RoundTrips-error : p.op_code ≡ error → IsError p → RoundTrips h p q
  RoundTrips-error e a = record {
    sent = put_u16 5 ++ (put_u16 (error_value p.error_code) ++ put_string p.error_message);
    written = unfold serialize serialize_as op_value in ground arith;
    received = p;
    read =
        read_error q p.error_code p.error_message a.code a.no_nul a.size ∙ ground (arith, a.others);
    same_fields = refl;
    same_options = λ k. refl;
  }

  RoundTrips-oack : p.op_code ≡ oack → IsOack p → RoundTrips h p q
  RoundTrips-oack e a = record {
    sent = put_u16 6 ++ put_options (h.walk p.options);
    written = unfold serialize serialize_as op_value in ground arith;
    received = record p { options = h.walk p.options };
    read =
        read_oack q (h.walk p.options) (walk-ne-nil h p.options a.some_option)
          (IsOptions-walk h p.options a.options_fit)
        ∙ ground (arith, a.others);
    same_fields = refl;
    same_options = λ k. lookup-walk h p.options k a.options_fit.distinct;
  }

  RoundTrips-request :
      (p.op_code ≡ read_request) ⊎ (p.op_code ≡ write_request) → IsRequest p → RoundTrips h p q
  RoundTrips-request which a =
      let t = mode_text p.mode a.mode_named in
      record {
        sent =
            put_u16 (op_value p.op_code)
            ++ (put_string p.filename
                ++ (put_string a.mode_name ++ put_options (h.walk p.options)));
        written = unfold serialize serialize_as serialize_request in ground (arith, a.mode_named);
        received = record p { options = h.walk p.options };
        read =
            read_request_run q p.op_code p.filename a.mode_name p.mode (h.walk p.options) which
              a.filename_field t (IsOptions-walk h p.options a.options_fit)
            ∙ ground (arith, a.others);
        same_fields = refl;
        same_options = λ k. lookup-walk h p.options k a.options_fit.distinct;
      }

  by_op_code : (op : OpCode) → p.op_code ≡ op → IsSendableAs op p → RoundTrips h p q
  by_op_code read_request e a = RoundTrips-request (inl e) a
  by_op_code write_request e a = RoundTrips-request (inr e) a
  by_op_code data_block e a = RoundTrips-data e a
  by_op_code acknowledge e a = RoundTrips-ack e a
  by_op_code error e a = RoundTrips-error e a
  by_op_code oack e a = RoundTrips-oack e a
  by_op_code (OpCode.unnamed n) e a = absurd a

  -- Every packet within the limits is written, for every order in which the hash map is walked,
  -- and every packet object that reads the bytes then holds the same fields and, at each name,
  -- the same option.
  pub deserialize-serialize : IsSendable p → RoundTrips h p q
  deserialize-serialize a = by_op_code p.op_code refl a
