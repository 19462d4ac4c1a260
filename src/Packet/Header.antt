-- ===== src/Packet/Header.antt =====
-- The first steps of `Deserialize`: the reset, the size limits and the opcode.
use tftpserver.Prelude.{
  ℕ, ◌+◌, ◌≤◌, ◌<◌, ◌≡◌, refl, ◌⊎◌, inl, inr, false, [], ◌∷◌, ◌++◌, Bytes, length, arith, ltb,
  is_empty, ◌||◌, zero, suc, Bool-cases,
}
use tftpserver.Common.{
  OpCode, read_request, write_request, data_block, acknowledge, error, oack, op_value, op_of_value,
  ErrorCode, error_value, error_of_value,
}
use tftpserver.Packet.{TftpPacket, initial_packet, reset_state}
use tftpserver.Packet.Writer.{put_u16}
use tftpserver.Packet.Reader.{byte_at, get_u16, deserialize_as, deserialize_body, deserialize}

-- An opcode of the protocol, 1 to 6.
abbrev pub IsNamedOp : OpCode → Type 0
IsNamedOp (OpCode.unnamed _) = ⊥
IsNamedOp _ = Unit

abbrev pub IsNamedError : ErrorCode → Type 0
IsNamedError (ErrorCode.unnamed _) = ⊥
IsNamedError _ = Unit

pub get_u16-put_u16 : (v : ℕ) (rest : Bytes) → v < 65536 → get_u16 (put_u16 v ++ rest) 0 ≡ v
unfolding get_u16 byte_at put_u16
get_u16-put_u16 v rest h = omega arith

-- Behind an opcode.
pub get_u16-put_u16_two :
    (u v : ℕ) (rest : Bytes) → v < 65536 → get_u16 (put_u16 u ++ (put_u16 v ++ rest)) 2 ≡ v
unfolding get_u16 byte_at put_u16
get_u16-put_u16_two u v rest h = omega arith

pub op_of_value-op_value : (op : OpCode) → IsNamedOp op → op_of_value (op_value op) ≡ op
unfolding op_of_value op_value
op_of_value-op_value (OpCode.unnamed n) h = absurd h
op_of_value-op_value _ h = refl

pub error_of_value-error_value :
    (e : ErrorCode) → IsNamedError e → (error_of_value (error_value e) ≡ e) × (error_value e ≤ 7)
unfolding error_of_value error_value
error_of_value-error_value (ErrorCode.unnamed n) h = absurd h
error_of_value-error_value _ h = (refl, omega arith)

pub op_of_value_out : (v : ℕ) → (v < 1) ⊎ (6 < v) → op_of_value v ≡ OpCode.unnamed v
unfolding op_of_value
op_of_value_out v h = ground arith

op_value_range : (op : OpCode) → IsNamedOp op → (1 ≤ op_value op) × (op_value op ≤ 6)
unfolding op_value
op_value_range (OpCode.unnamed n) h = absurd h
op_value_range _ h = (omega arith, omega arith)

-- A packet of a legal size that begins with a named opcode is handed to the reader for that code,
-- whatever the packet object held before.
pub deserialize-as :
    (q : TftpPacket) (op : OpCode) (rest : Bytes)
    → IsNamedOp op
    → 2 ≤ length rest
    → length rest ≤ 514
    → deserialize q (put_u16 (op_value op) ++ rest)
      ≡ deserialize_as op (record initial_packet { op_code = op }) (put_u16 (op_value op) ++ rest)
unfolding deserialize deserialize_body reset_state
deserialize-as q op rest n lo hi =
    let packet = put_u16 (op_value op) ++ rest in
    let range = op_value_range op n in
    let code : get_u16 packet 0 ≡ op_value op =
      get_u16-put_u16 (op_value op) rest (omega (arith, range)) in
    let same = op_of_value-op_value op n in
    let filled : is_empty packet ≡ false = unfold put_u16 in refl in
    let size : length packet ≡ length rest + 2 = unfold put_u16 in omega arith in
    ground (arith, code, same, filled, size, range)

-- What the first steps do with any input: they refuse its size, refuse its opcode, or hand it on.
pub data Opens (q : TftpPacket) (d : Bytes) : Type 0 where
  bad_size :
      (length d < 4) ⊎ (516 < length d) → deserialize q d ≡ (initial_packet, false) → Opens q d
  bad_op :
      (4 ≤ length d) × (length d ≤ 516)
      → (get_u16 d 0 < 1) ⊎ (6 < get_u16 d 0)
      → deserialize q d ≡ (record initial_packet { op_code = OpCode.unnamed (get_u16 d 0) }, false)
      → Opens q d
  handed :
      (4 ≤ length d) × (length d ≤ 516)
      → (op : OpCode) → IsNamedOp op
      → get_u16 d 0 ≡ op_value op
      → deserialize q d ≡ deserialize_as op (record initial_packet { op_code = op }) d
      → Opens q d

named_or_not :
    (v : ℕ)
    → (((v < 1) ⊎ (6 < v)) × (op_of_value v ≡ OpCode.unnamed v) × (op_value (op_of_value v) ≡ v))
      ⊎ ((op : OpCode) × IsNamedOp op × (v ≡ op_value op) × (op_of_value v ≡ op))
unfolding op_of_value op_value
named_or_not zero = inl (inl (omega arith), refl, refl)
named_or_not (suc zero) = inr (read_request, tt, refl, refl)
named_or_not (suc (suc zero)) = inr (write_request, tt, refl, refl)
named_or_not (suc (suc (suc zero))) = inr (data_block, tt, refl, refl)
named_or_not (suc (suc (suc (suc zero)))) = inr (acknowledge, tt, refl, refl)
named_or_not (suc (suc (suc (suc (suc zero))))) = inr (error, tt, refl, refl)
named_or_not (suc (suc (suc (suc (suc (suc zero)))))) = inr (oack, tt, refl, refl)
named_or_not (suc (suc (suc (suc (suc (suc (suc v))))))) =
    inl (inr (omega arith), ground arith, ground arith)

pub deserialize-Opens : (q : TftpPacket) (d : Bytes) → Opens q d
unfolding deserialize deserialize_body reset_state
deserialize-Opens q [] = bad_size (inl (omega arith)) refl
deserialize-Opens q (c ∷ cs) =
    elim (Bool-cases (ltb (length (c ∷ cs)) 4 || ltb 516 (length (c ∷ cs)))) [
      | inl bad ↦ bad_size (ground arith) (rw bad)
      | inr fits ↦ elim (named_or_not (get_u16 (c ∷ cs) 0)) [
        | inl (range, e, value) ↦ bad_op (ground arith) range (ground (arith, e, value))
        | inr (op, n, value, e) ↦
            handed (ground arith) op n value (ground (arith, e, op_value_range op n))
      ]
    ]
