-- ===== src/Server/Upload/Storing.antt =====
-- The whole run of `HandleWriteRequest`: a reply, a reception, and the write callback.
use tftpserver.Prelude.{
  ℕ, ◌≡◌, refl, sym, ap, ◌∙◌, Bool, true, false, List, [], ◌∷◌, ◌++◌, Option, Bytes, subst,
  append-nil, append_assoc, append_snoc, codes,
}
use tftpserver.Prelude.Int.{ℤ}
use tftpserver.Common.{op_value, access_violation}
use tftpserver.Options.{Options, HashOrder}
use tftpserver.Packet.{TftpPacket, create_ack}
use tftpserver.Packet.Writer.{put_u16, serialize, serialize_as}
use tftpserver.Server.{Address, Net, Event, sent, stored, World, emit}
use tftpserver.Server.Io.{send_once}
use tftpserver.Server.Io.Runs.{Ran, Ran-bind, Ran-pure, Ran-with}
use tftpserver.Server.Io.Attempts.{send_packet-Ran}
use tftpserver.Server.Io.Errors.{
  stores, stores-append, Attempts-stores, Answered, Answered-OnlySends, OnlySends-stores,
  send_error-Answered,
}
use tftpserver.Server.Upload.{
  WriteEnd, completed, not_stored, reply_failed, expected_size, oack_data, store_file, receive_file,
  reply_to, handle_write_request,
}
use tftpserver.Server.Upload.Rounds.{IsFailure}
use tftpserver.Server.Upload.Reception.{Reception, broken_off, last_block, next, write_loop_whole}
use tftpserver.Server.Upload.Payloads.{
  Quiet, payloads-append, Attempts-payloads, OnlySends-payloads, Reception-stores,
}

-- A file, or a failure for one of the program's reasons.
abbrev Ended : WriteEnd → Type 0
Ended (completed _) = Unit
Ended end = IsFailure end

IsFailure-Ended : (end : WriteEnd) → IsFailure end → Ended end
IsFailure-Ended (completed _) f = tt
IsFailure-Ended end f = f

Reception-Ended :
    {max_size : ℕ} {expected : Option ℕ} {block : ℕ} {file : Bytes} {events : List Event}
    {end : WriteEnd}
    → Reception max_size expected block file events end
    → Ended end
Reception-Ended {end = end} (broken_off f quiet) = IsFailure-Ended end f
Reception-Ended (last_block p a short same) = subst Ended (sym same) tt
Reception-Ended (next p es later split a long r) = Reception-Ended r

Quiet-append : (xs ys : List Event) → Quiet xs → Quiet ys → Quiet (xs ++ ys)
Quiet-append xs ys h k = (rw (stores-append xs ys, h.0) k.0, rw (payloads-append xs ys, h.1) k.1)

Answered-Quiet :
    (addr : Address) (packet : Bytes) (es : List Event) → Answered addr packet es → Quiet es
Answered-Quiet addr packet es a =
    let only = Answered-OnlySends addr packet es a in
    (OnlySends-stores addr packet es only, OnlySends-payloads addr packet es only)

-- The file that a run has ended with, if it is one that the callback was given.
abbrev pub handed_over : Bool → Bytes → WriteEnd
handed_over true file = completed file
handed_over false file = not_stored file

-- A run without a call of the callback, for one of the program's reasons; or a reply, a reception
-- of the whole file, one call of the callback, and what follows from its answer.
pub data Handled (max_size : ℕ) (write_callback : Bytes → Bytes → Bool) (filepath : Bytes)
    (packet : TftpPacket) (events : List Event) : WriteEnd → Type 0 where
  no_file :
      (end : WriteEnd)
      → IsFailure end
      → stores events ≡ []
      → Handled max_size write_callback filepath packet events end
  whole_file :
      (file : Bytes) (reply during later : List Event) (end : WriteEnd)
      → events ≡ reply ++ (during ++ stored filepath file (write_callback filepath file) ∷ later)
      → Quiet reply
      → Reception max_size (expected_size packet) 1 [] during (completed file)
      → Quiet later
      → end ≡ handed_over (write_callback filepath file) file
      → Handled max_size write_callback filepath packet events end

module _ (net : Net) (h : HashOrder) (client : Address) (timeout_secs : ℤ) (max_size : ℕ)
    (write_callback : Bytes → Bytes → Bool) where
  -- The events behind a complete reception.
  record Handing (filepath file : Bytes) (events : List Event) (end : WriteEnd) : Type 0 where
    later : List Event
    events_are : events ≡ stored filepath file (write_callback filepath file) ∷ later
    quiet : Quiet later
    end_is : end ≡ handed_over (write_callback filepath file) file

  store_file-Handing :
      (filepath file : Bytes) (w : World)
      → Ran w
          (store_file net h client timeout_secs max_size write_callback filepath (completed file) w)
          (Handing filepath file)
  unfolding store_file
  store_file-Handing filepath file w = at_answer (write_callback filepath file) refl
    where
      at_answer :
          (answer : Bool)
          → write_callback filepath file ≡ answer
          → Ran w
              (store_file net h client timeout_secs max_size write_callback filepath
                (completed file)
                w)
              (Handing filepath file)
      at_answer true e =
          let event = stored filepath file true in
          rw e (record {
            end = completed file;
            after = emit event w;
            events = event ∷ [];
            returns = refl;
            trace_is = refl;
            holds = record {
              later = [];
              events_are = rw e refl;
              quiet = (refl, refl);
              end_is = rw e refl;
            };
          })
      at_answer false e =
          let event = stored filepath file false in
          let r =
            send_error-Answered net h client access_violation (codes "File write failed")
              (emit event w) in
          rw e (record {
            end = not_stored file;
            after = r.after;
            events = event ∷ r.events;
            returns = rw r.returns refl;
            trace_is = r.trace_is ∙ append_snoc w.trace event r.events;
            holds = record {
              later = r.events;
              events_are = rw e refl;
              quiet = Answered-Quiet client _ r.events r.holds;
              end_is = rw e refl;
            };
          })

  reply_to-Ran :
      (options : Options) (w : World)
      → Ran w
          (reply_to net h client timeout_secs max_size write_callback options w)
          (λ es _. Quiet es)
  unfolding reply_to
  reply_to-Ran [] w =
      let s =
        send_packet-Ran net h client (create_ack 0) (put_u16 4 ++ put_u16 0) w
          (unfold serialize serialize_as create_ack op_value in refl) in
      Ran-with s (Attempts-stores s.holds, Attempts-payloads s.holds)
  reply_to-Ran (o ∷ options) w =
      let r = send_once net h client (oack_data h (o ∷ options)) w in
      record {
        end = r.0;
        after = r.1;
        events = sent client (oack_data h (o ∷ options)) r.0 ∷ [];
        returns = refl;
        trace_is = refl;
        holds = (refl, refl);
      }

  -- What follows the reception.
  store_file-Behind :
      (filepath : Bytes) (packet : TftpPacket) (during : List Event) (end : WriteEnd) (w : World)
      → Reception max_size (expected_size packet) 1 [] during end
      → Ran w
          (store_file net h client timeout_secs max_size write_callback filepath end w)
          (λ later result. Handled max_size write_callback filepath packet (during ++ later) result)
  unfolding store_file
  store_file-Behind filepath packet during (completed file) w r =
      let s = store_file-Handing filepath file w in
      let q = s.holds in
      Ran-with s (
        whole_file file [] during q.later s.end (ap (λ u. during ++ u) q.events_are) (refl, refl) r
          q.quiet q.end_is)
  store_file-Behind filepath packet during end w r =
      Ran-pure w end (no_file end (Reception-Ended r) (rw (append-nil) (Reception-stores r)))

  receive_file-Handled :
      (filepath : Bytes) (packet : TftpPacket) (reply : List Event) (done : Bool) (w : World)
      → Quiet reply
      → Ran w
          (receive_file net h client timeout_secs max_size write_callback filepath packet done w)
          (λ es end. Handled max_size write_callback filepath packet (reply ++ es) end)
  unfolding receive_file
  receive_file-Handled filepath packet reply false w quiet =
      Ran-pure w reply_failed (no_file reply_failed tt (rw append-nil quiet.0))
  receive_file-Handled filepath packet reply true w quiet =
      let r = write_loop_whole net h client timeout_secs max_size (expected_size packet) w in
      let q = store_file-Behind filepath packet r.events r.end r.after r.holds in
      Ran-bind (store_file net h client timeout_secs max_size write_callback filepath) r q
        (behind_reply reply (r.events ++ q.events) quiet q.holds)
    where
      behind_reply :
          (reply es : List Event) {end : WriteEnd}
          → Quiet reply
          → Handled max_size write_callback filepath packet es end
          → Handled max_size write_callback filepath packet (reply ++ es) end
      behind_reply reply es quiet (no_file end f none_stored) =
          no_file end f (rw (stores-append reply es, quiet.0) none_stored)
      behind_reply reply es quiet
            (whole_file file before during later end events_are q r l end_is) =
          whole_file file (reply ++ before) during later end
            (ap (λ u. reply ++ u) events_are ∙ sym (append_assoc reply before _))
            (Quiet-append reply before quiet q) r l end_is

  -- Whatever the network does and whatever the callback answers, `HandleWriteRequest` returns, within
  -- the fuel. Either it ends for one of its reasons without a file and without a call of the callback;
  -- or it receives blocks 1, 2, ... in order (modulo 65536), each acknowledged to its sender, within
  -- the limits, all of 512 bytes or more but the last, calls the callback once, with the file, and the
  -- answer decides whether the transfer is complete.
  pub handle_write_request-Handled :
      (filepath : Bytes) (packet : TftpPacket) (w : World)
      → Ran w
          (handle_write_request net h client timeout_secs max_size write_callback filepath packet w)
          (Handled max_size write_callback filepath packet)
  unfolding handle_write_request
  handle_write_request-Handled filepath packet w =
      let r = reply_to-Ran packet.options w in
      let q = receive_file-Handled filepath packet r.events r.end r.after r.holds in
      Ran-bind (receive_file net h client timeout_secs max_size write_callback filepath packet) r q
        q.holds
