-- ===== src/Server/Client/Confined.antt =====
-- What `HandleClient` stores.
use tftpserver.Prelude.{
  ℕ, ◌≡◌, ◌≤◌, ◌⊎◌, inl, inr, refl, sym, Bool, true, false, not, List, [], ◌∷◌, ◌++◌, Option, some,
  Bytes, NoNul, length, Bool-cases, append-nil, if◌then◌else◌, codes,
}
use tftpserver.Common.{OpCode, read_request, write_request, access_violation, illegal_operation}
use tftpserver.Options.{HashOrder}
use tftpserver.Path.{FileSystem, ends_with, is_path_secure, normalize_path}
use tftpserver.Path.Contained.{Below, normalize_path-Below}
use tftpserver.Packet.{TftpPacket, initial_packet}
use tftpserver.Packet.Reader.{deserialize}
use tftpserver.Server.{Address, Net, Event, World, pure}
use tftpserver.Server.Io.Runs.{Ran, Ran-then, Ran-map, Ran-with}
use tftpserver.Server.Io.Errors.{stores, send_error-Ran}
use tftpserver.Server.Upload.{WriteEnd, completed, not_stored, out_of_fuel}
use tftpserver.Server.Upload.Once.{StoredFor, handle_write_request-StoredFor}
use tftpserver.Server.Client.{
  Config, invalid_packet, no_socket, not_bound, access_denied, read_ended, write_ended,
  unknown_operation, catch_all, dispatch, serve, handle_client,
}
use tftpserver.Server.Client.Quiet.{handle_read_request-stores}

-- At most one file was stored, under a path and within a size.
abbrev pub StoredAt : ℕ → Bytes → List Event → Type 0
StoredAt max_size filepath events =
    (stores events ≡ [])
    ⊎ ((file : Bytes) × (stores events ≡ (filepath, file) ∷ []) × length file ≤ max_size)

StoredFor-StoredAt :
    (max_size : ℕ) (write_callback : Bytes → Bytes → Bool) (filepath : Bytes) (events : List Event)
    (end : WriteEnd)
    → StoredFor max_size write_callback filepath events end
    → StoredAt max_size filepath events
StoredFor-StoredAt max_size write_callback filepath events (completed file) s = inr (file, s.0, s.2)
StoredFor-StoredAt max_size write_callback filepath events (not_stored file) s =
    inr (file, s.0, s.2)
StoredFor-StoredAt max_size write_callback filepath events out_of_fuel s = absurd s
StoredFor-StoredAt max_size write_callback filepath events _ s = inl s

-- What a run of `HandleClient` has done: it ends, and every file that it stored lies below the root
-- directory and within the limit.
pub record Confined (fs : FileSystem) (config : Config) (before after : World) : Type 0 where
  pub events : List Event
  pub trace_is : after.trace ≡ before.trace ++ events
  pub confined :
      (stores events ≡ [])
      ⊎ ((filepath : Bytes) × (file : Bytes) × (stores events ≡ (filepath, file) ∷ [])
          × (length file ≤ config.max_transfer_size)
          × Below fs config.root_dir filepath)

module _ (net : Net) (h : HashOrder) (fs : FileSystem) (config : Config)
    (read_callback : Bytes → Option Bytes) (write_callback : Bytes → Bytes → Bool)
    (client : Address) where
  dispatch-StoredAt :
      (op : OpCode) (filepath : Bytes) (packet : TftpPacket) (w : World)
      → Ran w
          (dispatch net h fs config read_callback write_callback client op filepath packet w)
          (λ es _. StoredAt config.max_transfer_size filepath es)
  unfolding dispatch
  dispatch-StoredAt read_request filepath packet w =
      let r =
        handle_read_request-stores net h client config.timeout_seconds config.max_transfer_size
          (read_callback filepath) w in
      Ran-map read_ended r (inl r.holds)
  dispatch-StoredAt write_request filepath packet w =
      let r =
        handle_write_request-StoredFor net h client config.timeout_seconds config.max_transfer_size
          write_callback filepath packet w in
      Ran-map write_ended r
        (StoredFor-StoredAt config.max_transfer_size write_callback filepath r.events r.end r.holds)
  dispatch-StoredAt op filepath packet w =
      let r = send_error-Ran net h client illegal_operation (codes "Illegal operation") w in
      Ran-then r unknown_operation (inl r.holds)

  -- No file, or at most one, under a path below the root directory.
  abbrev BelowRoot : List Event → Type 0
  BelowRoot es =
      (stores es ≡ [])
      ⊎ ((filepath : Bytes) × StoredAt config.max_transfer_size filepath es
          × Below fs config.root_dir filepath)

  serve-Confined :
      (packet : TftpPacket) (w : World)
      → config.secure_mode ≡ true
      → fs.absolute config.root_dir ≡ some config.root_dir
      → ends_with b'/' config.root_dir ≡ true
      → NoNul config.root_dir
      → Ran w
          (serve net h fs config read_callback write_callback client packet w)
          (λ es _. BelowRoot es)
  unfolding serve dispatch
  serve-Confined packet w secure absolute slash clean =
      let filepath = normalize_path fs (config.root_dir ++ packet.filename) in
      elim (Bool-cases (is_path_secure fs packet.filename config.root_dir)) [
        | inl allowed ↦
            let below =
              normalize_path-Below fs config.root_dir packet.filename absolute slash clean
                allowed in
            let r = dispatch-StoredAt packet.op_code filepath packet w in
            rw (secure, allowed) (Ran-with r (inr (filepath, r.holds, below)))
        | inr refused ↦
            let r = send_error-Ran net h client access_violation (codes "Access denied") w in
            rw (secure, refused) (Ran-then r access_denied (inl r.holds))
      ]

  -- The tests before `serve`.
  tested-Confined :
      (good opens binds : Bool) (packet : TftpPacket) (w : World)
      → Ran w
          (serve net h fs config read_callback write_callback client packet w)
          (λ es _. BelowRoot es)
      → Confined fs config w
          (catch_all (
            if not good
            then pure invalid_packet w
            else if not opens
            then pure no_socket w
            else if not binds
            then pure not_bound w
            else serve net h fs config read_callback write_callback client packet w)).1
  unfolding catch_all
  tested-Confined true true true packet w r =
      rw r.returns
        (record { events = r.events; trace_is = r.trace_is; confined = one_file r.events r.holds })
    where
      one_file :
          (events : List Event)
          → BelowRoot events
          → (stores events ≡ [])
            ⊎ ((filepath : Bytes) × (file : Bytes) × (stores events ≡ (filepath, file) ∷ [])
                × (length file ≤ config.max_transfer_size)
                × Below fs config.root_dir filepath)
      one_file events (inl none_stored) = inl none_stored
      one_file events (inr (filepath, inl none_stored, below)) = inl none_stored
      one_file events (inr (filepath, inr (file, once, fits), below)) =
          inr (filepath, file, once, fits, below)
  tested-Confined false opens binds packet w r = record {
    events = [];
    trace_is = sym (append-nil w.trace);
    confined = inl refl;
  }
  tested-Confined true false binds packet w r = record {
    events = [];
    trace_is = sym (append-nil w.trace);
    confined = inl refl;
  }
  tested-Confined true true false packet w r = record {
    events = [];
    trace_is = sym (append-nil w.trace);
    confined = inl refl;
  }

  -- In secure mode, with a root directory that is absolute, ends with a slash and has no NUL, whatever
  -- the first datagram, the network and the callbacks are: `HandleClient` calls the write callback
  -- at most once, with a path that lies below the root directory as the file system resolves it, and
  -- with data within the limit.
  pub handle_client-Confined :
      (opens binds : Bool) (first : Bytes) (w : World)
      → config.secure_mode ≡ true
      → fs.absolute config.root_dir ≡ some config.root_dir
      → ends_with b'/' config.root_dir ≡ true
      → NoNul config.root_dir
      → Confined fs config w
          (handle_client net h fs config read_callback write_callback client opens binds first w).1
  unfolding handle_client
  handle_client-Confined opens binds first w secure absolute slash clean =
      tested-Confined (deserialize initial_packet first).1 opens binds
        (deserialize initial_packet first).0 w
        (serve-Confined (deserialize initial_packet first).0 w secure absolute slash clean)
