-- ===== src/Server/Upload/Reception.antt =====
-- The reception of a file as a sequence of events, and the loop's runs as such sequences.
use tftpserver.Prelude.{
  ℕ, zero, suc, ◌+◌, ◌*◌, ◌%◌, ◌≤◌, ◌<◌, ◌≡◌, refl, ap, ◌∙◌, List, [], ◌++◌, Option, Bytes, length,
  arith, append_assoc, length-append,
}
use tftpserver.Prelude.Int.{ℤ}
use tftpserver.Common.{max_data_size}
use tftpserver.Options.{HashOrder}
use tftpserver.Packet.{TftpPacket}
use tftpserver.Server.{Address, Net, Event, World, returned}
use tftpserver.Server.Io.Runs.{Ran}
use tftpserver.Server.Io.Errors.{stores}
use tftpserver.Server.Upload.{WriteEnd, completed, WriteRound, write_round, write_loop, write_fuel}
use tftpserver.Server.Upload.Rounds.{
  IsFailure, Accepted, RoundOf, failed, final, full, write_round-Ran,
}

-- A reception: blocks in order, each acknowledged to its sender, all full but the last. It ends
-- with the file, within the limits, or with a failure; and it calls no callback.
pub data Reception (max_size : ℕ) (expected : Option ℕ)
    : ℕ → Bytes → List Event → WriteEnd → Type 0 where
  broken_off :
      {block : ℕ} {file : Bytes} {events : List Event} {end : WriteEnd}
      → IsFailure end
      → stores events ≡ []
      → Reception max_size expected block file events end
  last_block :
      {block : ℕ} {file : Bytes} {events : List Event} {end : WriteEnd} (p : TftpPacket)
      → Accepted max_size expected block file p events
      → length p.payload < max_data_size
      → end ≡ completed (file ++ p.payload)
      → Reception max_size expected block file events end
  next :
      {block : ℕ} {file : Bytes} {events : List Event} {end : WriteEnd} (p : TftpPacket)
      (es later : List Event)
      → events ≡ es ++ later
      → Accepted max_size expected block file p es
      → max_data_size ≤ length p.payload
      → Reception max_size expected ((block + 1) % 65536) (file ++ p.payload) later end
      → Reception max_size expected block file events end

module _ (net : Net) (h : HashOrder) (client : Address) (timeout_secs : ℤ) (max_size : ℕ)
    (expected : Option ℕ) where
  -- With a round for each full block that still fits and one more, the loop ends.
  pub write_loop-Reception :
      (fuel block : ℕ) (file : Bytes) (w : World)
      → max_size < length file + fuel * 512
      → length file ≤ max_size
      → Ran w
          (write_loop net h client timeout_secs max_size expected fuel block file w)
          (Reception max_size expected block file)
  unfolding write_loop
  write_loop-Reception zero block file w l o = absurd (omega arith)
  write_loop-Reception (suc fuel) block file w l o =
      let r = write_round-Ran net h client timeout_secs max_size expected block file w in
      after_round r.end r.after r.events r.returns r.trace_is r.holds
        (λ p. write_loop-Reception fuel ((block + 1) % 65536) (file ++ p.payload))
    where
      after_round :
          (end : WriteRound) (after : World) (events : List Event)
          → write_round net h client timeout_secs max_size expected block file w
            ≡ (returned end, after)
          → after.trace ≡ w.trace ++ events
          → RoundOf max_size expected block file events end
          → ((p : TftpPacket) (w' : World)
              → max_size < length (file ++ p.payload) + fuel * 512
              → length (file ++ p.payload) ≤ max_size
              → Ran w'
                  (write_loop net h client timeout_secs max_size expected fuel
                    ((block + 1) % 65536)
                    (file ++ p.payload)
                    w')
                  (Reception max_size expected ((block + 1) % 65536) (file ++ p.payload)))
          → Ran w
              (write_loop net h client timeout_secs max_size expected (suc fuel) block file w)
              (Reception max_size expected block file)
      after_round _ after events e t (failed end f quiet) ih = record {
        end = end;
        after = after;
        events = events;
        returns = rw e;
        trace_is = t;
        holds = broken_off f quiet;
      }
      after_round _ after events e t (final p a short) ih = record {
        end = completed (file ++ p.payload);
        after = after;
        events = events;
        returns = rw e;
        trace_is = t;
        holds = last_block p a short refl;
      }
      after_round _ after events e t (full p a long) ih =
          let q = ih p after (omega (arith, length-append file p.payload)) a.fits in
          record {
            end = q.end;
            after = q.after;
            events = events ++ q.events;
            returns = rw e q.returns;
            trace_is =
                q.trace_is ∙ (ap (λ u. u ++ q.events) t ∙ append_assoc w.trace events q.events);
            holds = next p events q.events refl a long q.holds;
          }

  -- The loop with the fuel that the handler gives it.
  pub write_loop_whole :
      (w : World)
      → Ran w
          (write_loop net h client timeout_secs max_size expected (write_fuel max_size) 1 [] w)
          (Reception max_size expected 1 [])
  write_loop_whole w = write_loop-Reception (write_fuel max_size) 1 [] w (omega arith) (omega arith)
