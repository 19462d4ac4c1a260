-- ===== src/Server/Io/Attempts.antt =====
-- The events of `SendPacket`: the datagram is tried up to a number of times, with a pause after each
-- failure.
use tftpserver.Prelude.{
  ◌+◌, ℕ, zero, suc, Bool, true, false, List, [], ◌∷◌, ◌++◌, Bytes, ◌≡◌, refl, sym, ◌∙◌, append-nil,
  append_assoc, arith, Bool-cases, inl, inr, Option, none, some, take,
}
use tftpserver.Prelude.Int.{ℤ}
use tftpserver.Common.{max_packet_size}
use tftpserver.Packet.Reader.{deserialize}
use tftpserver.Options.{HashOrder}
use tftpserver.Packet.{TftpPacket, initial_packet}
use tftpserver.Packet.Writer.{serialize}
use tftpserver.Server.{
  Address, Net, Event, sent, paused, got, Received, no_packet, datagram, World, returned, emit,
}
use tftpserver.Server.Io.{
  send_once, send_loop, send_packet, receive_packet, max_retries, retry_timeout_ms,
}
use tftpserver.Server.Io.Runs.{Ran}

-- The last number is of attempts that are left; the truth value says whether one went through.
pub data Attempts (addr : Address) (packet : Bytes) : ℕ → Bool → List Event → Type 0 where
  gave_up : Attempts addr packet zero false []
  went_through : {left : ℕ} → Attempts addr packet (suc left) true (sent addr packet true ∷ [])
  again :
      {left : ℕ} {done : Bool} {es : List Event}
      → Attempts addr packet left done es
      → Attempts addr packet (suc left) done (sent addr packet false ∷ paused retry_timeout_ms ∷ es)

-- A run that ends with `done` in world `after` has made these attempts.
pub record Tried (addr : Address) (packet : Bytes) (left : ℕ) (before : World) (done : Bool)
    (after : World) : Type 0 where
  pub events : List Event
  pub attempts : Attempts addr packet left done events
  pub trace_is : after.trace ≡ before.trace ++ events

module _ (net : Net) (h : HashOrder) (addr : Address) (packet : Bytes) where
  -- The world after one call of `sendto`.
  abbrev pub after_send : Bool → World → World
  after_send done w = emit (sent addr packet done) (record w { sends = w.sends + 1 })

  pub send_loop_through :
      (left : ℕ) (w : World)
      → (send_once net h addr packet w).0 ≡ true
      → send_loop net h (suc left) addr packet w ≡ (true, after_send true w)
  unfolding send_loop
  send_loop_through left w e = ground arith

  send_loop_again :
      (left : ℕ) (w : World)
      → (send_once net h addr packet w).0 ≡ false
      → send_loop net h (suc left) addr packet w
        ≡ send_loop net h left addr packet (emit (paused retry_timeout_ms) (after_send false w))
  unfolding send_loop
  send_loop_again left w e = ground arith

  pub send_loop-Tried :
      (left : ℕ) (w : World)
      → let r = send_loop net h left addr packet w in Tried addr packet left w r.0 r.1
  unfolding send_loop
  send_loop-Tried zero w = record {
    events = [];
    attempts = gave_up;
    trace_is = sym (append-nil w.trace);
  }
  send_loop-Tried (suc left) w = elim (Bool-cases (send_once net h addr packet w).0) [
    | inl e ↦
        rw (send_loop_through left w e)
          (record { events = sent addr packet true ∷ []; attempts = went_through; trace_is = refl })
    | inr e ↦
        let next = emit (paused retry_timeout_ms) (after_send false w) in
        let t = send_loop-Tried left next in
        rw (send_loop_again left w e) (record {
          events = sent addr packet false ∷ paused retry_timeout_ms ∷ t.events;
          attempts = again t.attempts;
          trace_is = t.trace_is ∙ simp append_assoc;
        })
  ]

-- `SendPacket` of a packet that can be written makes up to five attempts with its bytes.
pub send_packet-Tried :
    (net : Net) (h : HashOrder) (addr : Address) (p : TftpPacket) (packet : Bytes) (w : World)
    → serialize h p ≡ some packet
    → (done : Bool) × (after : World) × (send_packet net h addr p w ≡ (returned done, after))
      × Tried addr packet max_retries w done after
unfolding send_packet
send_packet-Tried net h addr p packet w e =
    let r = send_loop net h max_retries addr packet w in
    (r.0, r.1, rw (e, send_packet), send_loop-Tried net h addr packet max_retries w)

pub send_packet-Ran :
    (net : Net) (h : HashOrder) (addr : Address) (p : TftpPacket) (packet : Bytes) (w : World)
    → serialize h p ≡ some packet
    → Ran w (send_packet net h addr p w) (λ es done. Attempts addr packet max_retries done es)
send_packet-Ran net h addr p packet w e =
    let (done, after, r, t) = send_packet-Tried net h addr p packet w e in
    record {
      end = done;
      after = after;
      events = t.events;
      returns = r;
      trace_is = t.trace_is;
      holds = t.attempts;
    }

-- The events of `ReceivePacket`: a packet that was received, or none.
pub data Arrival (before after : World) : Option (Address × TftpPacket) → Type 0 where
  nothing : after.trace ≡ before.trace → Arrival before after none
  arrived :
      (a : Address) (p : TftpPacket)
      → after.trace ≡ before.trace ++ got a p ∷ []
      → Arrival before after (some (a, p))

pub receive_packet-Arrival :
    (net : Net) (timeout_ms : ℤ) (w : World)
    → (r : Option (Address × TftpPacket)) × (after : World) × (receive_packet net timeout_ms w
        ≡ (returned r, after))
      × Arrival w after r
unfolding receive_packet
receive_packet-Arrival net timeout_ms w = at_answer (net.receive w.receives timeout_ms) refl
  where
    at_answer :
        (answer : Received)
        → net.receive w.receives timeout_ms ≡ answer
        → (r : Option (Address × TftpPacket)) × (after : World) × (receive_packet net timeout_ms w
            ≡ (returned r, after))
          × Arrival w after r
    at_answer no_packet e =
        (none, record w { receives = w.receives + 1 }, ground (arith, e), nothing refl)
    at_answer (datagram a d) e =
        elim (Bool-cases (deserialize initial_packet (take max_packet_size d)).1) [
          | inl good ↦
              let p = (deserialize initial_packet (take max_packet_size d)).0 in
              (
                some (a, p),
                emit (got a p) (record w { receives = w.receives + 1 }),
                ground (arith, e, good),
                arrived a p refl,
              )
          | inr bad ↦
              (none, record w { receives = w.receives + 1 }, ground (arith, e, bad), nothing refl)
        ]
