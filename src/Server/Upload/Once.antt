-- ===== src/Server/Upload/Once.antt =====
-- The calls of the write callback in `HandleWriteRequest`.
use tftpserver.Prelude.{
  ℕ, ◌≤◌, ◌≡◌, refl, sym, Bool, true, false, List, [], ◌∷◌, Bytes, ◌∙◌, append-nil, length, subst,
}
use tftpserver.Prelude.Int.{ℤ}
use tftpserver.Options.{HashOrder}
use tftpserver.Packet.{TftpPacket}
use tftpserver.Server.{Address, Net, Event, World}
use tftpserver.Server.Io.Runs.{Ran, Ran-with}
use tftpserver.Server.Io.Errors.{stores}
use tftpserver.Server.Upload.{WriteEnd, completed, not_stored, out_of_fuel, handle_write_request}
use tftpserver.Server.Upload.Rounds.{IsFailure}
use tftpserver.Server.Upload.Payloads.{payloads, payloads-append, stored_once, Reception-Received}
use tftpserver.Server.Upload.Storing.{
  handed_over, Handled, no_file, whole_file, handle_write_request-Handled,
}

-- What the callback was given, for the ways a run ends.
abbrev pub StoredFor : ℕ → (Bytes → Bytes → Bool) → Bytes → List Event → WriteEnd → Type 0
StoredFor max_size write_callback filepath events (completed file) =
    (stores events ≡ (filepath, file) ∷ [])
    × (write_callback filepath file ≡ true)
    × length file ≤ max_size
    × (file ≡ payloads events)
StoredFor max_size write_callback filepath events (not_stored file) =
    (stores events ≡ (filepath, file) ∷ [])
    × (write_callback filepath file ≡ false)
    × length file ≤ max_size
    × (file ≡ payloads events)
StoredFor max_size write_callback filepath events out_of_fuel = ⊥
StoredFor max_size write_callback filepath events end = stores events ≡ []

Handled-StoredFor :
    (max_size : ℕ) (write_callback : Bytes → Bytes → Bool) (filepath : Bytes) (packet : TftpPacket)
    (events : List Event) (end : WriteEnd)
    → Handled max_size write_callback filepath packet events end
    → StoredFor max_size write_callback filepath events end
Handled-StoredFor max_size write_callback filepath packet events end (no_file _ f quiet) =
    failure end f quiet
  where
    failure :
        (end : WriteEnd)
        → IsFailure end
        → stores events ≡ []
        → StoredFor max_size write_callback filepath events end
    failure (completed _) f quiet = absurd f
    failure (not_stored _) f quiet = absurd f
    failure out_of_fuel f quiet = absurd f
    failure end f quiet = quiet
Handled-StoredFor max_size write_callback filepath packet events end
      (whole_file file reply during later _ events_are q r l end_is) =
    subst (StoredFor max_size write_callback filepath events) (sym end_is)
      (at_answer (write_callback filepath file) refl)
  where
    once : stores events ≡ (filepath, file) ∷ []
    once = stored_once reply later _ events_are q r l

    whole : payloads events ≡ payloads during
    whole = rw events_are (
        rw (payloads-append reply _, q.1, payloads-append during _, l.1)
          (append-nil (payloads during)))

    at_answer :
        (answer : Bool)
        → write_callback filepath file ≡ answer
        → StoredFor max_size write_callback filepath events (handed_over answer file)
    at_answer true e =
        let (is_payloads, fits) = Reception-Received (completed file) r in
        (once, e, fits, is_payloads ∙ sym whole)
    at_answer false e =
        let (is_payloads, fits) = Reception-Received (completed file) r in
        (once, e, fits, is_payloads ∙ sym whole)

module _ (net : Net) (h : HashOrder) (client : Address) (timeout_secs : ℤ) (max_size : ℕ)
    (write_callback : Bytes → Bytes → Bool) where
  -- Whatever the network does, the write callback is called once when `HandleWriteRequest` has a whole
  -- file, and not at all otherwise: the call has the path of the request, and data within the limit
  -- that is all that the packets received in the run brought, in order; its answer is the result of the
  -- transfer.
  pub handle_write_request-StoredFor :
      (filepath : Bytes) (packet : TftpPacket) (w : World)
      → Ran w
          (handle_write_request net h client timeout_secs max_size write_callback filepath packet w)
          (StoredFor max_size write_callback filepath)
  handle_write_request-StoredFor filepath packet w =
      let r =
        handle_write_request-Handled net h client timeout_secs max_size write_callback filepath
          packet w in
      Ran-with r (Handled-StoredFor max_size write_callback filepath packet r.events r.end r.holds)
