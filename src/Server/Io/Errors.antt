-- ===== src/Server/Io/Errors.antt =====
-- The events of `SendError`, and the calls of the write callback.
use tftpserver.Prelude.{
  ◌/◌, ℕ, zero, suc, Bool, true, false, List, [], ◌∷◌, ◌++◌, Bytes, ◌≡◌, refl, ap, some,
}
use tftpserver.Common.{ErrorCode, error_value, op_value}
use tftpserver.Options.{HashOrder}
use tftpserver.Packet.{TftpPacket, create_error}
use tftpserver.Packet.Writer.{serialize, serialize_as, put_u16, put_string}
use tftpserver.Server.{
  Address, Net, Event, sent, paused, got, World, returned, emit, pure, ◌>>=◌, stored,
}
use tftpserver.Server.Io.{send_error_loop, send_error, max_retries, retry_timeout_ms}
use tftpserver.Server.Io.Runs.{Ran, Ran-bind, Ran-pure, Ran-emit, Ran-with}
use tftpserver.Server.Io.Attempts.{Attempts, gave_up, went_through, again, send_packet-Ran}

-- The calls of the write callback.
abbrev pub stores : List Event → List (Bytes × Bytes)
stores [] = []
stores (stored path file done ∷ es) = (path, file) ∷ stores es
stores (sent a d done ∷ es) = stores es
stores (paused n ∷ es) = stores es
stores (got a p ∷ es) = stores es

pub stores-append : (xs ys : List Event) → stores (xs ++ ys) ≡ stores xs ++ stores ys
stores-append [] ys = refl
stores-append (stored path file done ∷ es) ys = ap (◌∷◌ (path, file)) (stores-append es ys)
stores-append (sent a d done ∷ es) ys = stores-append es ys
stores-append (paused n ∷ es) ys = stores-append es ys
stores-append (got a p ∷ es) ys = stores-append es ys

pub Attempts-stores :
    {a : Address} {d : Bytes} {left : ℕ} {done : Bool} {es : List Event}
    → Attempts a d left done es
    → stores es ≡ []
Attempts-stores gave_up = refl
Attempts-stores went_through = refl
Attempts-stores (again t) = Attempts-stores t

-- Nothing but attempts to send this datagram to this address, and pauses.
abbrev pub OnlySends : Address → Bytes → List Event → Type 0
OnlySends addr packet [] = Unit
OnlySends addr packet (sent a d done ∷ es) = (a ≡ addr) × (d ≡ packet) × OnlySends addr packet es
OnlySends addr packet (paused n ∷ es) = OnlySends addr packet es
OnlySends addr packet _ = ⊥

-- One such attempt, and then nothing else.
abbrev pub Answered : Address → Bytes → List Event → Type 0
Answered addr packet (sent a d done ∷ es) = (a ≡ addr) × (d ≡ packet) × OnlySends addr packet es
Answered addr packet _ = ⊥

module _ (addr : Address) (packet : Bytes) where
  OnlySends-append :
      (xs ys : List Event)
      → OnlySends addr packet xs
      → OnlySends addr packet ys
      → OnlySends addr packet (xs ++ ys)
  OnlySends-append [] ys h k = k
  OnlySends-append (sent a d done ∷ xs) ys (same, same', h) k =
      (same, same', OnlySends-append xs ys h k)
  OnlySends-append (paused n ∷ xs) ys h k = OnlySends-append xs ys h k
  OnlySends-append (stored path file done ∷ xs) ys h k = absurd h
  OnlySends-append (got a p ∷ xs) ys h k = absurd h

  Answered-append :
      (xs ys : List Event)
      → Answered addr packet xs
      → OnlySends addr packet ys
      → Answered addr packet (xs ++ ys)
  Answered-append [] ys h k = absurd h
  Answered-append (sent a d done ∷ xs) ys (same, same', h) k =
      (same, same', OnlySends-append xs ys h k)
  Answered-append (paused n ∷ xs) ys h k = absurd h
  Answered-append (stored path file done ∷ xs) ys h k = absurd h
  Answered-append (got a p ∷ xs) ys h k = absurd h

  pub Attempts-OnlySends :
      {left : ℕ} {done : Bool} {es : List Event}
      → Attempts addr packet left done es
      → OnlySends addr packet es
  Attempts-OnlySends gave_up = tt
  Attempts-OnlySends went_through = (refl, refl, tt)
  Attempts-OnlySends (again t) = (refl, refl, Attempts-OnlySends t)

  Attempts-Answered :
      {left : ℕ} {done : Bool} {es : List Event}
      → Attempts addr packet (suc left) done es
      → Answered addr packet es
  Attempts-Answered went_through = (refl, refl, tt)
  Attempts-Answered (again t) = (refl, refl, Attempts-OnlySends t)

  pub Answered-OnlySends : (es : List Event) → Answered addr packet es → OnlySends addr packet es
  Answered-OnlySends [] h = absurd h
  Answered-OnlySends (sent a d done ∷ es) h = h
  Answered-OnlySends (paused n ∷ es) h = absurd h
  Answered-OnlySends (stored path file done ∷ es) h = absurd h
  Answered-OnlySends (got a p ∷ es) h = absurd h

  pub OnlySends-stores : (es : List Event) → OnlySends addr packet es → stores es ≡ []
  OnlySends-stores [] h = refl
  OnlySends-stores (sent a d done ∷ es) h = OnlySends-stores es h.2
  OnlySends-stores (paused n ∷ es) h = OnlySends-stores es h
  OnlySends-stores (stored path file done ∷ es) h = absurd h
  OnlySends-stores (got a p ∷ es) h = absurd h

module _ (net : Net) (h : HashOrder) (addr : Address) where
  AnswersAll : ℕ → Bytes → List Event → Type 0
  AnswersAll zero packet es = OnlySends addr packet es
  AnswersAll (suc left) packet es = Answered addr packet es

  AnswersAll-OnlySends :
      (left : ℕ) (packet : Bytes) (es : List Event)
      → AnswersAll left packet es
      → OnlySends addr packet es
  unfolding AnswersAll
  AnswersAll-OnlySends zero packet es a = a
  AnswersAll-OnlySends (suc left) packet es a = Answered-OnlySends addr packet es a

  send_error_loop-Answers :
      (left : ℕ) (p : TftpPacket) (packet : Bytes) (w : World)
      → serialize h p ≡ some packet
      → Ran w (send_error_loop net h left addr p w) (λ es _. AnswersAll left packet es)
  unfolding send_error_loop AnswersAll
  send_error_loop-Answers zero p packet w e = Ran-pure w tt tt
  send_error_loop-Answers (suc left) p packet w e =
      let r = send_packet-Ran net h addr p packet w e in
      let q = at_done r.end r.after (λ w'. send_error_loop-Answers left p packet w' e) in
      Ran-bind _ r q (
        Answered-append addr packet r.events q.events (Attempts-Answered addr packet r.holds)
          q.holds)
    where
      at_done :
          (done : Bool) (after : World)
          → ((w' : World)
              → Ran w' (send_error_loop net h left addr p w') (λ es _. AnswersAll left packet es))
          → Ran after
              (◌>>=◌
                (λ w'. (returned done, w'))
                (λ d. elim d [
                  | true ↦ pure tt
                  | false ↦ λ w'.
                      send_error_loop net h left addr p (emit (paused (retry_timeout_ms / 2)) w')
                ])
                after)
              (λ es _. OnlySends addr packet es)
      at_done true after later = Ran-pure after tt tt
      at_done false after later =
          let q = later (emit (paused (retry_timeout_ms / 2)) after) in
          Ran-emit after _ q (AnswersAll-OnlySends left packet q.events q.holds)

  -- `SendError` returns, and tries to send the error to the client, once at least, and nothing else.
  pub send_error-Answered :
      (code : ErrorCode) (message : Bytes) (w : World)
      → Ran w (send_error net h addr code message w) (λ es _.
        Answered addr (put_u16 5 ++ (put_u16 (error_value code) ++ put_string message)) es)
  unfolding send_error AnswersAll
  send_error-Answered code message w =
      let written : serialize h (create_error code message)
          ≡ some (put_u16 5 ++ (put_u16 (error_value code) ++ put_string message)) =
        unfold serialize serialize_as op_value create_error in refl in
      send_error_loop-Answers max_retries (create_error code message) _ w written

  -- `SendError` returns, and calls no callback.
  pub send_error-Ran :
      (code : ErrorCode) (message : Bytes) (w : World)
      → Ran w (send_error net h addr code message w) (λ es _. stores es ≡ [])
  send_error-Ran code message w =
      let r = send_error-Answered code message w in
      Ran-with r (OnlySends-stores addr _ r.events (Answered-OnlySends addr _ r.events r.holds))
