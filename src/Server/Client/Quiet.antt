-- ===== src/Server/Client/Quiet.antt =====
-- `HandleReadRequest` and the write callback.
use tftpserver.Prelude.{
  ℕ, ◌≡◌, refl, ap, ◌∙◌, List, [], ◌∷◌, Option, none, some, Bytes, length, ltb, arith, Bool-cases,
  inl, inr, codes,
}
use tftpserver.Prelude.Int.{ℤ}
use tftpserver.Common.{file_not_found, disk_full}
use tftpserver.Options.{HashOrder}
use tftpserver.Server.{Address, Net, Event, got, World}
use tftpserver.Server.Io.Runs.{Ran, Ran-then, Ran-with}
use tftpserver.Server.Io.Errors.{stores, stores-append, Attempts-stores, send_error-Ran}
use tftpserver.Server.Download.{ReadEnd, not_found, too_large, handle_read_request}
use tftpserver.Server.Download.Rounds.{
  Round, acked, not_sent, no_answer, other_answer, Transfer, stopped, last_block, next,
}
use tftpserver.Server.Download.Delivery.{handle_read_request-Ended}

Round-stores :
    {client : Address} {block : ℕ} {chunk : Bytes} {events : List Event} {end : ReadEnd}
    → Round client block chunk events end
    → stores events ≡ []
Round-stores (acked es a p e t good) =
    ap stores e ∙ (stores-append es (got a p ∷ []) ∙ rw (Attempts-stores t) refl)
Round-stores (not_sent t) = Attempts-stores t
Round-stores (no_answer t) = Attempts-stores t
Round-stores (other_answer es a p e t bad) =
    ap stores e ∙ (stores-append es (got a p ∷ []) ∙ rw (Attempts-stores t) refl)

Transfer-stores :
    {client : Address} {block : ℕ} {file : Bytes} {events : List Event} {end : ReadEnd}
    → Transfer client block file events end
    → stores events ≡ []
Transfer-stores (stopped chunk rest e r n) = Round-stores r
Transfer-stores (last_block l r e) = Round-stores r
Transfer-stores (next chunk rest es later e l e' r t) =
    ap stores e' ∙ (stores-append es later ∙ rw (Round-stores r) (Transfer-stores t))

module _ (net : Net) (h : HashOrder) (client : Address) (timeout_secs : ℤ) (max_size : ℕ) where
  pub handle_read_request-stores :
      (answer : Option Bytes) (w : World)
      → Ran w
          (handle_read_request net h client timeout_secs max_size answer w)
          (λ es _. stores es ≡ [])
  unfolding handle_read_request
  handle_read_request-stores none w =
      let r = send_error-Ran net h client file_not_found (codes "File not found") w in
      Ran-then r not_found r.holds
  handle_read_request-stores (some file) w = elim (Bool-cases (ltb max_size (length file))) [
    | inl large ↦
        let r = send_error-Ran net h client disk_full (codes "File size too large") w in
        rw large (Ran-then r too_large r.holds)
    | inr fits ↦
        let r =
          handle_read_request-Ended net h client timeout_secs max_size file w (ground arith) in
        Ran-with r (Transfer-stores r.holds.transfer)
  ]
