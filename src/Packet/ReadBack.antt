-- ===== src/Packet/ReadBack.antt =====
-- `Deserialize` on the bytes of each kind of packet that fits the limits.
use tftpserver.Prelude.{
  ℕ, ◌+◌, ◌-◌, ◌≤◌, ◌<◌, ◌≡◌, ◌≢◌, refl, ◌∙◌, ◌⊎◌, true, [], ◌∷◌, ◌++◌, some, Bytes, NoNul, length,
  length-append, drop, arith,
}
use tftpserver.Common.{
  ErrorCode, OpCode, read_request, write_request, data_block, acknowledge, error, oack, op_value,
  error_value, TransferMode, max_filename_length, max_string_length,
}
use tftpserver.Options.{Options}
use tftpserver.Packet.{TftpPacket, initial_packet}
use tftpserver.Packet.Strings.Exact.{read_string_validated-run}
use tftpserver.Packet.Writer.{put_u16, put_string, put_options}
use tftpserver.Packet.Reader.{
  byte_at, get_u16, read_request_fields, deserialize_request, deserialize_data, deserialize_ack,
  deserialize_error, deserialize_oack, deserialize_as, deserialize,
}
use tftpserver.Packet.Reader.Entries.{
  IsField, read_field, below_of_drop, put_string-ne-nil, read_options-put_options,
}
use tftpserver.Packet.Header.{
  IsNamedOp, IsNamedError, get_u16-put_u16_two, error_of_value-error_value, deserialize-as,
}
use tftpserver.Packet.Limits.{IsOptions, IsModeText}

-- An option takes more than two bytes.
two_bytes : (m : Options) → m ≢ [] → 2 ≤ length (put_options m)
unfolding put_options put_string
two_bytes [] ne = absurd (ne refl)
two_bytes ((name, value) ∷ m) ne = omega (
  arith,
  length-append (name ++ 0 ∷ []) ((value ++ 0 ∷ []) ++ put_options m),
  length-append (value ++ 0 ∷ []) (put_options m),
  length-append name (0 ∷ []),
  length-append value (0 ∷ []),
)

module _ (q : TftpPacket) where
  pub read_ack :
      (n : ℕ)
      → n < 65536
      → deserialize q (put_u16 4 ++ put_u16 n)
        ≡ (record initial_packet { op_code = acknowledge; block_number = n }, true)
  unfolding op_value deserialize_as deserialize_ack
  read_ack n h =
      let size : length (put_u16 n) ≡ 2 = unfold put_u16 in refl in
      let block : get_u16 (put_u16 4 ++ put_u16 n) 2 ≡ n =
        unfold put_u16 get_u16 byte_at in omega arith in
      let all : length (put_u16 4 ++ put_u16 n) ≡ 4 = unfold put_u16 in refl in
      deserialize-as q acknowledge (put_u16 n) tt (omega (arith, size)) (omega (arith, size))
      ∙ ground (arith, all, block)

  pub read_data :
      (n : ℕ) (payload : Bytes)
      → n < 65536
      → length payload ≤ 512
      → deserialize q (put_u16 3 ++ (put_u16 n ++ payload)) ≡ (
        record initial_packet { op_code = data_block; block_number = n; payload = payload },
        true,
      )
  unfolding op_value deserialize_as deserialize_data
  read_data n payload h l =
      let size : length (put_u16 n ++ payload) ≡ 2 + length payload =
        unfold put_u16 in omega arith in
      let block = get_u16-put_u16_two 3 n payload h in
      let all : length (put_u16 3 ++ (put_u16 n ++ payload)) ≡ 4 + length payload =
        unfold put_u16 in omega arith in
      let behind : drop 4 (put_u16 3 ++ (put_u16 n ++ payload)) ≡ payload =
        unfold put_u16 in refl in
      deserialize-as q data_block (put_u16 n ++ payload) tt (omega (arith, size))
        (omega (arith, size))
      ∙ ground (arith, all, block, behind)

  pub read_error :
      (code : ErrorCode) (message : Bytes)
      → IsNamedError code
      → NoNul message
      → length message ≤ 255
      → deserialize q (put_u16 5 ++ (put_u16 (error_value code) ++ put_string message)) ≡ (
        record initial_packet { op_code = error; error_code = code; error_message = message },
        true,
      )
  unfolding op_value deserialize_as deserialize_error
  read_error code message named n l =
      let rest = put_u16 (error_value code) ++ put_string message in
      let (same, range) = error_of_value-error_value code named in
      let value =
        get_u16-put_u16_two 5 (error_value code) (put_string message) (omega (arith, range)) in
      let text : length (put_string message) ≡ length message + 1 =
        unfold put_string in omega (arith, length-append message (0 ∷ [])) in
      let size : length rest ≡ 3 + length message = unfold put_u16 in omega (arith, text) in
      let all : length (put_u16 5 ++ rest) ≡ 5 + length message =
        unfold put_u16 in omega (arith, text) in
      let stands : drop 4 (put_u16 5 ++ rest) ≡ message ++ 0 ∷ [] =
        unfold put_u16 put_string in refl in
      let read = read_string_validated-run (put_u16 5 ++ rest) message 4 255 [] n l stands in
      deserialize-as q error rest tt (omega (arith, size)) (omega (arith, size))
      ∙ ground (arith, all, value, same, range, read)

  pub read_oack :
      (m : Options)
      → m ≢ []
      → IsOptions 514 m
      → deserialize q (put_u16 6 ++ put_options m)
        ≡ (record initial_packet { op_code = oack; options = m }, true)
  unfolding op_value deserialize_as deserialize_oack
  read_oack m ne o =
      let stands : drop 2 (put_u16 6 ++ put_options m) ≡ put_options m = unfold put_u16 in refl in
      let read =
        read_options-put_options (put_u16 6 ++ put_options m) 2 m o.entries o.distinct o.count
          stands in
      deserialize-as q oack (put_options m) tt (two_bytes m ne) o.size ∙ ground (arith, read)

  read_request_fields-run :
      (v : ℕ) (filename mode_name : Bytes) (mode : TransferMode) (m : Options) (room : ℕ)
      → IsField max_filename_length filename
      → IsModeText mode mode_name
      → IsOptions room m
      → read_request_fields
          (put_u16 v ++ (put_string filename ++ (put_string mode_name ++ put_options m)))
        ≡ some (record { filename = filename; mode = mode; options = m })
  unfolding read_request_fields
  read_request_fields-run v filename mode_name mode m room f t o =
      let d = put_u16 v ++ (put_string filename ++ (put_string mode_name ++ put_options m)) in
      let stands : drop 2 d ≡ put_string filename ++ (put_string mode_name ++ put_options m) =
        unfold put_u16 in refl in
      let (read, behind) = read_field d filename 2 max_filename_length _ f stands in
      let (read_mode, behind_mode) =
        read_field d mode_name (2 + length filename + 1) max_string_length _ t.is_field behind in
      let below = below_of_drop d _ _ behind (put_string-ne-nil mode_name (put_options m)) in
      let options = read_options-put_options d _ m o.entries o.distinct o.count behind_mode in
      ground (arith, read, f.filled, below, read_mode, t.is_field.filled, t.read_back, options)

  pub read_request_run :
      (op : OpCode) (filename mode_name : Bytes) (mode : TransferMode) (m : Options)
      → (op ≡ read_request) ⊎ (op ≡ write_request)
      → IsField max_filename_length filename
      → IsModeText mode mode_name
      → IsOptions (516 - (4 + length filename + length mode_name)) m
      → deserialize q (
          put_u16 (op_value op) ++ (put_string filename ++ (put_string mode_name ++ put_options m)))
        ≡ (
          record initial_packet { op_code = op; filename = filename; mode = mode; options = m },
          true,
        )
  unfolding deserialize_as deserialize_request
  read_request_run op filename mode_name mode m which f t o =
      let rest = put_string filename ++ (put_string mode_name ++ put_options m) in
      let size : length rest ≡ length filename + length mode_name + 2 + length (put_options m) =
        unfold put_string in
        omega (
          arith,
          length-append (filename ++ 0 ∷ []) ((mode_name ++ 0 ∷ []) ++ put_options m),
          length-append (mode_name ++ 0 ∷ []) (put_options m),
          length-append filename (0 ∷ []),
          length-append mode_name (0 ∷ []),
        ) in
      let read = read_request_fields-run (op_value op) filename mode_name mode m _ f t o in
      let named : IsNamedOp op = ground arith in
      deserialize-as q op rest named (omega (arith, size))
        (omega (arith, size, f.fits, t.short, o.size))
      ∙ ground (arith, read)
