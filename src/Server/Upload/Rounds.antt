-- ===== src/Server/Upload/Rounds.antt =====
-- What a round of the loop of `HandleWriteRequest` does.
use tftpserver.Prelude.{
  ℕ, ◌≤◌, ◌<◌, ◌≡◌, refl, sym, ap, ◌∙◌, Bool, true, false, List, [], ◌∷◌, ◌++◌, Option, none, some,
  Bytes, length, ltb, ◌==◌, ==_iff, arith, append-nil, append_assoc, Bool-cases, inl, inr, codes,
}
use tftpserver.Prelude.Int.{ℤ}
use tftpserver.Common.{ErrorCode, op_value, max_data_size, disk_full, illegal_operation}
use tftpserver.Options.{HashOrder}
use tftpserver.Packet.{TftpPacket, create_ack}
use tftpserver.Packet.Writer.{put_u16, serialize, serialize_as}
use tftpserver.Server.{Address, Net, Event, got, World, Thrown, pure, bind_result, to_millis}
use tftpserver.Server.Io.{send_error, max_retries}
use tftpserver.Server.Io.Runs.{Ran, Ran-bind, Ran-then, Ran-pure}
use tftpserver.Server.Io.Attempts.{
  Attempts, send_packet-Ran, Arrival, nothing, arrived, receive_packet-Arrival,
}
use tftpserver.Server.Io.Errors.{stores, stores-append, Attempts-stores, send_error-Ran}
use tftpserver.Server.Upload.{
  WriteEnd, completed, not_stored, receive_failed, not_data, wrong_block, ack_failed, too_large,
  exceeds_tsize, out_of_fuel, WriteRound, stop, more, exceeds_expected, check_sizes, take_block,
  write_round,
}

-- An end of the loop without a file, for one of the program's reasons.
abbrev pub IsFailure : WriteEnd → Type 0
IsFailure (completed _) = ⊥
IsFailure (not_stored _) = ⊥
IsFailure out_of_fuel = ⊥
IsFailure _ = Unit

-- A block was received and acknowledged to its sender, and the file with it is within the limits.
pub record Accepted (max_size : ℕ) (expected : Option ℕ) (block : ℕ) (file : Bytes) (p : TftpPacket)
    (events : List Event) : Type 0 where
  pub sender : Address
  pub sends : List Event
  pub events_are : events ≡ got sender p ∷ sends
  pub is_data : op_value p.op_code ≡ 3
  pub in_order : p.block_number ≡ block
  pub acked : Attempts sender (put_u16 4 ++ put_u16 block) max_retries true sends
  pub fits : length (file ++ p.payload) ≤ max_size
  pub expected_fits : exceeds_expected expected (length (file ++ p.payload)) ≡ false

-- What one round has done.
pub data RoundOf (max_size : ℕ) (expected : Option ℕ) (block : ℕ) (file : Bytes)
    (events : List Event) : WriteRound → Type 0 where
  failed :
      (end : WriteEnd)
      → IsFailure end
      → stores events ≡ []
      → RoundOf max_size expected block file events (stop end)
  final :
      (p : TftpPacket)
      → Accepted max_size expected block file p events
      → length p.payload < max_data_size
      → RoundOf max_size expected block file events (stop (completed (file ++ p.payload)))
  full :
      (p : TftpPacket)
      → Accepted max_size expected block file p events
      → max_data_size ≤ length p.payload
      → RoundOf max_size expected block file events (more (file ++ p.payload))

module _ (net : Net) (h : HashOrder) (client : Address) (timeout_secs : ℤ) (max_size : ℕ)
    (expected : Option ℕ) where
  refuse :
      (code : ErrorCode) (message : Bytes) (end : WriteEnd) (block : ℕ) (file : Bytes)
      (before : List Event) (w : World)
      → IsFailure end
      → stores before ≡ []
      → Ran w
          (bind_result (send_error net h client code message w) (λ _. pure (stop end)))
          (λ es r. RoundOf max_size expected block file (before ++ es) r)
  refuse code message end block file before w f quiet =
      let r = send_error-Ran net h client code message w in
      Ran-then r (stop end)
        (failed end f (rw (stores-append before r.events, r.holds, append-nil) quiet))

  check_sizes-Ran :
      (block : ℕ) (file : Bytes) (a : Address) (p : TftpPacket) (before : World) (w : World)
      (sends : List Event) (done : Bool)
      → op_value p.op_code ≡ 3
      → p.block_number ≡ block
      → Attempts a (put_u16 4 ++ put_u16 block) max_retries done sends
      → Ran w
          (check_sizes net h client timeout_secs max_size expected file p.payload done w)
          (λ es r. RoundOf max_size expected block file (got a p ∷ sends ++ es) r)
  unfolding check_sizes
  check_sizes-Ran block file a p before w sends false d o t =
      Ran-pure w (stop ack_failed) (failed ack_failed tt (rw append-nil (Attempts-stores t)))
  check_sizes-Ran block file a p before w sends true d o t =
      let size = length (file ++ p.payload) in
      elim (Bool-cases (ltb max_size size)) [
        | inl large ↦ rw large (
            refuse disk_full (codes "File size too large") too_large block file (got a p ∷ sends) w
              tt (Attempts-stores t))
        | inr fits ↦ elim (Bool-cases (exceeds_expected expected size)) [
          | inl exceeds ↦ rw fits (
              rw exceeds (
                refuse disk_full (codes "File size exceeds tsize") exceeds_tsize block file
                  (got a p ∷ sends) w tt (Attempts-stores t)))
          | inr expected_fits ↦
              let good : Accepted max_size expected block file p (got a p ∷ sends ++ []) = record {
                sender = a;
                sends = sends;
                events_are = ap (λ r. got a p ∷ r) (append-nil sends);
                is_data = d;
                in_order = o;
                acked = t;
                fits = ground arith;
                expected_fits = expected_fits;
              } in
              elim (Bool-cases (ltb (length p.payload) max_data_size)) [
                | inl short ↦
                    rw fits
                      (rw expected_fits (rw short (Ran-pure w _ (final p good (ground arith)))))
                | inr long ↦
                    rw fits (rw expected_fits (rw long (Ran-pure w _ (full p good (ground arith)))))
              ]
        ]
      ]

  take_block-Ran :
      (block : ℕ) (file : Bytes) (w after : World) (r : Option (Address × TftpPacket))
      → Arrival w after r
      → Ran w
          (take_block net h client timeout_secs max_size expected block file r after)
          (RoundOf max_size expected block file)
  unfolding take_block
  take_block-Ran block file w after none (nothing same) = record {
    end = stop receive_failed;
    after = after;
    events = [];
    returns = refl;
    trace_is = same ∙ sym (append-nil w.trace);
    holds = failed receive_failed tt refl;
  }
  take_block-Ran block file w after (some (a, p)) (arrived _ _ came) =
      elim (Bool-cases (op_value p.op_code == 3)) [
        | inr other ↦ rw other (
            behind_arrival (
              refuse illegal_operation (codes "Illegal operation") not_data block file
                (got a p ∷ []) after tt refl))
        | inl good ↦ elim (Bool-cases (p.block_number == block)) [
          | inr other ↦ rw good (
              rw other
                (behind_arrival (Ran-pure after (stop wrong_block) (failed wrong_block tt refl))))
          | inl same ↦
              let s =
                send_packet-Ran net h a (create_ack block) (put_u16 4 ++ put_u16 block) after
                  (unfold serialize serialize_as create_ack op_value in refl) in
              let c =
                check_sizes-Ran block file a p after s.after s.events s.end
                  ((==_iff (op_value p.op_code) 3).0 good) ((==_iff p.block_number block).0 same)
                  s.holds in
              rw good (rw same (behind_arrival (Ran-bind _ s c c.holds)))
        ]
      ]
    where
      behind_arrival :
          {m : Thrown WriteRound × World}
          → Ran after m (λ es r. RoundOf max_size expected block file (got a p ∷ [] ++ es) r)
          → Ran w m (RoundOf max_size expected block file)
      behind_arrival q = record {
        end = q.end;
        after = q.after;
        events = got a p ∷ q.events;
        returns = q.returns;
        trace_is = q.trace_is ∙ rw came (append_assoc w.trace (got a p ∷ []) q.events);
        holds = q.holds;
      }

  pub write_round-Ran :
      (block : ℕ) (file : Bytes) (w : World)
      → Ran w
          (write_round net h client timeout_secs max_size expected block file w)
          (RoundOf max_size expected block file)
  unfolding write_round
  write_round-Ran block file w =
      let (r, after, e, arrival) = receive_packet-Arrival net (to_millis timeout_secs) w in
      rw e (take_block-Ran block file w after r arrival)
