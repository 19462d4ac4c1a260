-- ===== src/Server/Upload/SmallBlocks.antt =====
-- src/internal/tftp_server_impl.cpp: HandleWriteRequest when the blocks that come are smaller than
-- `kMaxDataSize`, as with a block size that the acknowledgement of the options has agreed to.
use tftpserver.Prelude.{
  ℕ, ◌≤◌, ◌≡◌, ◌⊎◌, inl, inr, ap, Bool, List, [], ◌∷◌, ◌++◌, Option, Bytes, length, ltb,
  if◌then◌else◌, arith,
}
use tftpserver.Prelude.Int.{ℤ}
use tftpserver.Common.{max_data_size}
use tftpserver.Options.{HashOrder}
use tftpserver.Packet.{TftpPacket}
use tftpserver.Server.{Address, Net, Event, sent, paused, got, stored, World}
use tftpserver.Server.Io.Runs.{Ran, Ran-with}
use tftpserver.Server.Io.Errors.{stores}
use tftpserver.Server.Upload.{WriteEnd, completed, handle_write_request}
use tftpserver.Server.Upload.Rounds.{Accepted}
use tftpserver.Server.Upload.Reception.{Reception, broken_off, last_block, next}
use tftpserver.Server.Upload.Payloads.{stored_once}
use tftpserver.Server.Upload.Storing.{Handled, no_file, whole_file, handle_write_request-Handled}

abbrev pub larger : ℕ → ℕ → ℕ
larger a b = if ltb a b then b else a

-- The size of the largest payload that was received.
abbrev pub largest_payload : List Event → ℕ
largest_payload [] = 0
largest_payload (got a p ∷ es) = larger (length p.payload) (largest_payload es)
largest_payload (sent a d done ∷ es) = largest_payload es
largest_payload (paused n ∷ es) = largest_payload es
largest_payload (stored path file done ∷ es) = largest_payload es

-- The size of the largest file that the write callback was given.
abbrev pub largest_file : List (Bytes × Bytes) → ℕ
largest_file [] = 0
largest_file ((path, file) ∷ calls) = larger (length file) (largest_file calls)

largest_payload-append :
    (xs ys : List Event)
    → largest_payload (xs ++ ys) ≡ larger (largest_payload xs) (largest_payload ys)
largest_payload-append [] ys = ground arith
largest_payload-append (got a p ∷ es) ys = ground (arith, largest_payload-append es ys)
largest_payload-append (sent a d done ∷ es) ys = largest_payload-append es ys
largest_payload-append (paused n ∷ es) ys = largest_payload-append es ys
largest_payload-append (stored path file done ∷ es) ys = largest_payload-append es ys

Accepted-largest :
    {max_size : ℕ} {expected : Option ℕ} {block : ℕ} {file : Bytes} {p : TftpPacket}
    {events : List Event}
    → Accepted max_size expected block file p events
    → length p.payload ≤ largest_payload events
Accepted-largest a = rw a.events_are (ground arith)

abbrev size_of : WriteEnd → ℕ
size_of (completed file) = length file
size_of _ = 0

Reception-largest :
    {max_size : ℕ} {expected : Option ℕ} {block : ℕ} {events : List Event} (file : Bytes)
    → Reception max_size expected block [] events (completed file)
    → (max_data_size ≤ largest_payload events) ⊎ (length file ≤ largest_payload events)
Reception-largest file (broken_off f quiet) = absurd f
Reception-largest file (last_block p a short same) =
    inr (omega (arith, ap size_of same, Accepted-largest a))
Reception-largest file (next p es later split a long r) =
    inl (
      ground (arith, ap largest_payload split, largest_payload-append es later, Accepted-largest a))

Handled-largest :
    {max_size : ℕ} {write_callback : Bytes → Bytes → Bool} {filepath : Bytes} {packet : TftpPacket}
    (events : List Event) (end : WriteEnd)
    → Handled max_size write_callback filepath packet events end
    → (max_data_size ≤ largest_payload events)
      ⊎ (largest_file (stores events) ≤ largest_payload events)
Handled-largest events end (no_file _ f quiet) = inr (rw quiet (omega arith))
Handled-largest {filepath = path} events end
      (whole_file file reply during later _ events_are q r l end_is) =
    elim (Reception-largest file r) [
      | inl large ↦ inl (omega (arith, large, heard))
      | inr small ↦ inr (rw once (ground (arith, heard)))
    ]
  where
    once : stores events ≡ (path, file) ∷ []
    once = stored_once reply later _ events_are q r l

    heard : largest_payload during ≤ largest_payload events
    heard =
        rw events_are
          (rw (largest_payload-append reply _, largest_payload-append during _) (ground arith))

-- Whatever the network does and whatever the callback answers: when no payload of 512 bytes or more was
-- received in a run of `HandleWriteRequest`, no file that the write callback was given is larger than the
-- largest payload.
pub handle_write_request_small_blocks :
    (net : Net) (h : HashOrder) (client : Address) (timeout_secs : ℤ) (max_size : ℕ)
    (write_callback : Bytes → Bytes → Bool) (filepath : Bytes) (packet : TftpPacket) (w : World)
    → Ran w
        (handle_write_request net h client timeout_secs max_size write_callback filepath packet w)
        (λ events end.
          (max_data_size ≤ largest_payload events)
          ⊎ (largest_file (stores events) ≤ largest_payload events))
handle_write_request_small_blocks net h client timeout_secs max_size write_callback filepath packet
      w =
    let r =
      handle_write_request-Handled net h client timeout_secs max_size write_callback filepath packet
        w in
    Ran-with r (Handled-largest r.events r.end r.holds)
