-- ===== src/Server/Download/Cooperation.antt =====
-- Downloads with a network that takes each datagram and a client that acknowledges each block.
use tftpserver.Prelude.{
  ℕ, zero, suc, ◌+◌, ◌*◌, ◌%◌, ◌≤◌, ◌<◌, ◌≡◌, refl, ◌∙◌, true, false, ◌++◌, some, Bytes, length,
  take, ltb, arith, Bool-cases, inl, inr,
}
use tftpserver.Prelude.Int.{ℤ, pos}
use tftpserver.Common.{acknowledge, op_value, max_packet_size, max_data_size}
use tftpserver.Options.{HashOrder}
use tftpserver.Packet.{TftpPacket, initial_packet}
use tftpserver.Packet.Writer.{put_u16, serialize}
use tftpserver.Packet.ReadBack.{read_ack}
use tftpserver.Server.{Address, Net, datagram, got, World, returned, emit, to_millis, int_eq}
use tftpserver.Server.Io.{send_packet, receive_packet}
use tftpserver.Server.Io.Attempts.{after_send, send_loop_through}
use tftpserver.Server.Download.{
  completed, is_ack_of, judge_answer, await_ack, goes_on, block_size_at, read_round, read_loop,
  read_fuel, handle_read_request,
}
use tftpserver.Server.Download.Rounds.{
  next_block, data_datagram, create_data-chunk, chunk_at, length-chunk_at, block_size_at-le,
}
use tftpserver.Server.Download.Lockstep.{read_loop_stops, read_loop_next, goes_on_completed}

-- The datagram that acknowledges a block.
abbrev pub ack_datagram : ℕ → Bytes
ack_datagram block = put_u16 4 ++ put_u16 block

-- Every datagram is taken, and the wait number `start + i` brings the acknowledgement of block
-- `1 + i`, counted modulo 65536.
pub record Cooperates (net : Net) (client : Address) (start : ℕ) : Type 0 where
  pub sends_all : (n size : ℕ) → net.sendto n size ≡ pos size
  pub acks :
      (i : ℕ) (timeout_ms : ℤ)
      → net.receive (start + i) timeout_ms ≡ datagram client (ack_datagram ((1 + i) % 65536))

is_ack_of_lem :
    (block : ℕ)
    → is_ack_of block (record initial_packet { op_code = acknowledge; block_number = block }) ≡ true
unfolding is_ack_of op_value
is_ack_of_lem block = ground arith

-- A packet that the peer sends is received.
receive_packet_ack :
    (net : Net) (client : Address) (timeout_ms : ℤ) (w : World) (block : ℕ)
    → block < 65536
    → net.receive w.receives timeout_ms ≡ datagram client (ack_datagram block)
    → (after : World) × (receive_packet net timeout_ms w ≡ (
      returned
          (some (client, record initial_packet { op_code = acknowledge; block_number = block })),
      after,
    ))
      × (after.receives ≡ w.receives + 1)
unfolding receive_packet
receive_packet_ack net client timeout_ms w block l e =
    let p = record initial_packet { op_code = acknowledge; block_number = block } in
    let short : take max_packet_size (ack_datagram block) ≡ ack_datagram block =
      unfold put_u16 in refl in
    let read = read_ack initial_packet block l in
    (
      emit (got client p) (record w { receives = w.receives + 1 }),
      ground (arith, e, short, read),
      refl,
    )

module _ (net : Net) (h : HashOrder) (client : Address) (timeout_secs : ℤ) (start : ℕ)
    (c : Cooperates net client start) where
  send_packet_through :
      (p : TftpPacket) (d : Bytes) (w : World)
      → serialize h p ≡ some d
      → send_packet net h client p w ≡ (returned true, after_send net h client d true w)
  unfolding send_packet
  send_packet_through p d w e =
      let whole : int_eq (net.sendto w.sends (length d)) (length d) ≡ true =
        ground (arith, c.sends_all w.sends (length d)) in
      rw (e, send_packet) (rw (send_loop_through net h client d 4 w whole))

  read_round_acked :
      (file : Bytes) (offset i : ℕ) (w : World)
      → w.receives ≡ start + i
      → (after : World) × (read_round net h client timeout_secs file ((1 + i) % 65536) offset w
          ≡ (returned completed, after))
        × (after.receives ≡ start + (i + 1))
  unfolding read_round await_ack judge_answer
  read_round_acked file offset i w at_i =
      let block = (1 + i) % 65536 in
      let chunk = chunk_at file offset in
      let size : length chunk ≤ max_data_size =
        omega (arith, length-chunk_at file offset, block_size_at-le file offset) in
      let (p, created, written) = create_data-chunk h block chunk size in
      let through = send_packet_through p (data_datagram block chunk) w written in
      let w' = after_send net h client (data_datagram block chunk) true w in
      let comes : net.receive w'.receives (to_millis timeout_secs)
          ≡ datagram client (ack_datagram block) =
        rw at_i (c.acks i (to_millis timeout_secs)) in
      let (after, received, counted) =
        receive_packet_ack net client (to_millis timeout_secs) w' block (omega arith) comes in
      (
        after,
        rw created (rw through (rw received (rw (is_ack_of_lem block)))),
        omega (arith, counted),
      )

  read_loop_completes :
      (fuel : ℕ) (file : Bytes) (offset i : ℕ) (w : World)
      → length file < offset + fuel * 512
      → offset ≤ length file
      → w.receives ≡ start + i
      → (after : World) × (read_loop net h client timeout_secs fuel file ((1 + i) % 65536) offset w
          ≡ (returned completed, after))
  read_loop_completes zero file offset i w l o at_i = absurd (omega arith)
  read_loop_completes (suc fuel) file offset i w l o at_i =
      let (after, e, counted) = read_round_acked file offset i w at_i in
      elim (Bool-cases (goes_on completed (block_size_at file offset))) [
        | inl more ↦
            let (_, full) = goes_on_completed completed _ (block_size_at-le file offset) more in
            let left : offset + block_size_at file offset ≤ length file =
              unfold block_size_at in ground (arith, full) in
            let (last, completes) =
              read_loop_completes fuel file (offset + block_size_at file offset) (i + 1) after
                (omega (arith, full)) left counted in
            let same_block : next_block ((1 + i) % 65536) ≡ (1 + (i + 1)) % 65536 = omega arith in
            (
              last,
              read_loop_next net h client timeout_secs fuel file _ offset w completed after e more
                  ∙ rw same_block completes,
            )
        | inr done ↦ (
          after,
          read_loop_stops net h client timeout_secs fuel file _ offset w completed after e done,
        )
      ]

-- If the network takes every datagram whole and the n-th wait brings the acknowledgement of block n
-- (modulo 65536), the download of a file within the limit completes, whatever the length of the
-- file.
pub download_completes :
    (net : Net) (h : HashOrder) (client : Address) (timeout_secs : ℤ) (max_size : ℕ) (file : Bytes)
    (w : World)
    → Cooperates net client w.receives
    → length file ≤ max_size
    → (after : World) × (handle_read_request net h client timeout_secs max_size (some file) w
        ≡ (returned completed, after))
unfolding handle_read_request
download_completes net h client timeout_secs max_size file w c l =
    let fits : ltb max_size (length file) ≡ false = ground arith in
    rw fits (
      read_loop_completes net h client timeout_secs w.receives c (read_fuel file) file 0 0 w
        (omega arith) (omega arith) (omega arith))
