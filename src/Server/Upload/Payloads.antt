-- ===== src/Server/Upload/Payloads.antt =====
-- What the receptions of `HandleWriteRequest` have received.
use tftpserver.Prelude.{
  ℕ, ◌≤◌, ◌≡◌, refl, sym, ap, ◌∙◌, Bool, List, [], ◌∷◌, ◌++◌, Option, Bytes, length, subst,
  append-nil, append_assoc,
}
use tftpserver.Packet.{TftpPacket}
use tftpserver.Server.{Address, Event, sent, paused, got, stored}
use tftpserver.Server.Io.Attempts.{Attempts}
use tftpserver.Server.Io.Errors.{OnlySends, stores, stores-append, Attempts-stores}
use tftpserver.Server.Upload.{
  WriteEnd, completed, not_stored, reply_failed, receive_failed, not_data, wrong_block, ack_failed,
  too_large, exceeds_tsize, out_of_fuel,
}
use tftpserver.Server.Upload.Rounds.{Accepted}
use tftpserver.Server.Upload.Reception.{Reception, broken_off, last_block, next}

-- The data of the packets that were received, in order.
abbrev pub payloads : List Event → Bytes
payloads [] = []
payloads (got a p ∷ es) = p.payload ++ payloads es
payloads (sent a d done ∷ es) = payloads es
payloads (paused n ∷ es) = payloads es
payloads (stored path file done ∷ es) = payloads es

pub payloads-append : (xs ys : List Event) → payloads (xs ++ ys) ≡ payloads xs ++ payloads ys
payloads-append [] ys = refl
payloads-append (got a p ∷ es) ys =
    ap (λ u. p.payload ++ u) (payloads-append es ys)
    ∙ sym (append_assoc p.payload (payloads es) (payloads ys))
payloads-append (sent a d done ∷ es) ys = payloads-append es ys
payloads-append (paused n ∷ es) ys = payloads-append es ys
payloads-append (stored path file done ∷ es) ys = payloads-append es ys

pub Attempts-payloads :
    {a : Address} {d : Bytes} {left : ℕ} {done : Bool} {es : List Event}
    → Attempts a d left done es
    → payloads es ≡ []
Attempts-payloads Attempts.gave_up = refl
Attempts-payloads Attempts.went_through = refl
Attempts-payloads (Attempts.again t) = Attempts-payloads t

pub OnlySends-payloads :
    (addr : Address) (packet : Bytes) (es : List Event)
    → OnlySends addr packet es
    → payloads es ≡ []
OnlySends-payloads addr packet [] h = refl
OnlySends-payloads addr packet (sent a d done ∷ es) h = OnlySends-payloads addr packet es h.2
OnlySends-payloads addr packet (paused n ∷ es) h = OnlySends-payloads addr packet es h
OnlySends-payloads addr packet (stored path file done ∷ es) h = absurd h
OnlySends-payloads addr packet (got a p ∷ es) h = absurd h

-- No packet is received and nothing is stored.
abbrev pub Quiet : List Event → Type 0
Quiet es = (stores es ≡ []) × (payloads es ≡ [])

Accepted-payloads :
    {max_size : ℕ} {expected : Option ℕ} {block : ℕ} {file : Bytes} {p : TftpPacket}
    {events : List Event}
    → Accepted max_size expected block file p events
    → payloads events ≡ p.payload
Accepted-payloads {p = p} a =
    ap payloads a.events_are
    ∙ (ap (λ u. p.payload ++ u) (Attempts-payloads a.acked) ∙ append-nil p.payload)

Accepted-stores :
    {max_size : ℕ} {expected : Option ℕ} {block : ℕ} {file : Bytes} {p : TftpPacket}
    {events : List Event}
    → Accepted max_size expected block file p events
    → stores events ≡ []
Accepted-stores a = ap stores a.events_are ∙ Attempts-stores a.acked

pub Reception-stores :
    {max_size : ℕ} {expected : Option ℕ} {block : ℕ} {file : Bytes} {events : List Event}
    {end : WriteEnd}
    → Reception max_size expected block file events end
    → stores events ≡ []
Reception-stores (broken_off f quiet) = quiet
Reception-stores (last_block p a short same) = Accepted-stores a
Reception-stores (next p es later split a long r) =
    ap stores split ∙ (stores-append es later ∙ rw (Accepted-stores a) (Reception-stores r))

-- What a reception that ends with a file has received: its payloads, within the limit.
abbrev pub Received : ℕ → Bytes → List Event → WriteEnd → Type 0
Received max_size file events (completed whole) =
    (whole ≡ file ++ payloads events) × length whole ≤ max_size
Received max_size file events _ = Unit

pub Reception-Received :
    {max_size : ℕ} {expected : Option ℕ} {block : ℕ} {file : Bytes} {events : List Event}
    (end : WriteEnd)
    → Reception max_size expected block file events end
    → Received max_size file events end
Reception-Received {max_size = m} {file = file} {events = events} end (last_block p a short same) =
    subst (Received m file events) (sym same)
      (ap (λ u. file ++ u) (sym (Accepted-payloads a)), a.fits)
Reception-Received {file = file} {events = events} (completed whole)
      (next p es later split a long r) =
    let (is_payloads, fits) = Reception-Received (completed whole) r in
    let both : payloads events ≡ p.payload ++ payloads later =
      ap payloads split
      ∙ (payloads-append es later ∙ ap (λ u. u ++ payloads later) (Accepted-payloads a)) in
    (
      is_payloads ∙ (append_assoc file p.payload (payloads later) ∙ ap (λ u. file ++ u) (sym both)),
      fits,
    )
Reception-Received (completed whole) (broken_off f quiet) = absurd f
Reception-Received (not_stored _) _ = tt
Reception-Received reply_failed _ = tt
Reception-Received receive_failed _ = tt
Reception-Received not_data _ = tt
Reception-Received wrong_block _ = tt
Reception-Received ack_failed _ = tt
Reception-Received too_large _ = tt
Reception-Received exceeds_tsize _ = tt
Reception-Received out_of_fuel _ = tt

-- A whole reception between events without a call of the callback, and one call.
pub stored_once :
    {max_size : ℕ} {expected : Option ℕ} {block : ℕ} {before : Bytes} {end : WriteEnd}
    {path file : Bytes} {events during : List Event} (reply later : List Event) (done : Bool)
    → events ≡ reply ++ (during ++ stored path file done ∷ later)
    → Quiet reply
    → Reception max_size expected block before during end
    → Quiet later
    → stores events ≡ (path, file) ∷ []
stored_once {during = during} reply later done events_are q r l = rw events_are (
    rw (stores-append reply _, q.0) (rw (stores-append during _, Reception-stores r) (rw l.0 refl)))
