-- ===== src/Server/Download/Rounds.antt =====
-- A download as a sequence of events, and the handler's runs as such sequences.
use tftpserver.Prelude.{
  ℕ, ◌+◌, ◌%◌, ◌≤◌, ◌<◌, ◌≡◌, ◌≢◌, refl, ◌∙◌, Bool, true, false, List, [], ◌∷◌, ◌++◌, Option, none,
  some, Bytes, length, take, drop, arith, append_assoc, length-take, length-drop, Bool-cases, inl,
  inr,
}
use tftpserver.Prelude.Int.{ℤ}
use tftpserver.Common.{max_data_size, data_block, op_value}
use tftpserver.Options.{HashOrder}
use tftpserver.Packet.{TftpPacket, initial_packet, create_data}
use tftpserver.Packet.Writer.{put_u16, serialize, serialize_as}
use tftpserver.Server.{Address, Net, Event, got, World, to_millis}
use tftpserver.Server.Io.{max_retries}
use tftpserver.Server.Io.Runs.{Ran}
use tftpserver.Server.Io.Attempts.{
  Attempts, Tried, send_packet-Tried, Arrival, nothing, arrived, receive_packet-Arrival,
}
use tftpserver.Server.Download.{
  ReadEnd, completed, send_failed, ack_timeout, invalid_ack, is_ack_of, block_size_at, judge_answer,
  await_ack, read_round,
}

-- The datagram of a block.
abbrev pub data_datagram : ℕ → Bytes → Bytes
data_datagram block chunk = put_u16 3 ++ (put_u16 block ++ chunk)

abbrev pub next_block : ℕ → ℕ
next_block block = (block + 1) % 65536

-- The events of one round for a chunk, and how it ends; `completed` is the way on.
pub data Round (client : Address) (block : ℕ) (chunk : Bytes) (events : List Event)
    : ReadEnd → Type 0 where
  acked :
      (es : List Event) (a : Address) (p : TftpPacket)
      → events ≡ es ++ got a p ∷ []
      → Attempts client (data_datagram block chunk) max_retries true es
      → is_ack_of block p ≡ true
      → Round client block chunk events completed
  not_sent :
      Attempts client (data_datagram block chunk) max_retries false events
      → Round client block chunk events send_failed
  no_answer :
      Attempts client (data_datagram block chunk) max_retries true events
      → Round client block chunk events ack_timeout
  other_answer :
      (es : List Event) (a : Address) (p : TftpPacket)
      → events ≡ es ++ got a p ∷ []
      → Attempts client (data_datagram block chunk) max_retries true es
      → is_ack_of block p ≡ false
      → Round client block chunk events invalid_ack

-- The file from some block on, in lock step: each chunk of 512 bytes is acknowledged before the
-- next block is sent, and a shorter one is the last.
pub data Transfer (client : Address) : ℕ → Bytes → List Event → ReadEnd → Type 0 where
  stopped :
      {block : ℕ} {file : Bytes} {events : List Event} {end : ReadEnd} (chunk rest : Bytes)
      → file ≡ chunk ++ rest
      → Round client block chunk events end
      → end ≢ completed
      → Transfer client block file events end
  last_block :
      {block : ℕ} {file : Bytes} {events : List Event} {end : ReadEnd}
      → length file < max_data_size
      → Round client block file events completed
      → end ≡ completed
      → Transfer client block file events end
  next :
      {block : ℕ} {file : Bytes} {events : List Event} {end : ReadEnd} (chunk rest : Bytes)
      (es later : List Event)
      → file ≡ chunk ++ rest
      → length chunk ≡ max_data_size
      → events ≡ es ++ later
      → Round client block chunk es completed
      → Transfer client (next_block block) rest later end
      → Transfer client block file events end

pub create_data-chunk :
    (h : HashOrder) (block : ℕ) (chunk : Bytes)
    → length chunk ≤ max_data_size
    → (p : TftpPacket) × (create_data block chunk ≡ some p)
      × (serialize h p ≡ some (data_datagram block chunk))
unfolding create_data serialize serialize_as op_value
create_data-chunk h block chunk l = (
  record initial_packet { op_code = data_block; block_number = block; payload = chunk },
  ground arith,
  refl,
)

-- The chunk of a round is the next 512 bytes, or all that is left.
abbrev pub chunk_at : Bytes → ℕ → Bytes
chunk_at file offset = take (block_size_at file offset) (drop offset file)

pub length-chunk_at :
    (file : Bytes) (offset : ℕ) → length (chunk_at file offset) ≡ block_size_at file offset
unfolding block_size_at
length-chunk_at file offset =
    ground
      (arith, length-take (block_size_at file offset) (drop offset file), length-drop offset file)

pub block_size_at-le : (file : Bytes) (offset : ℕ) → block_size_at file offset ≤ max_data_size
unfolding block_size_at
block_size_at-le file offset = ground arith

judge_answer-Round :
    (client : Address) (block : ℕ) (chunk : Bytes) (es : List Event) (before w after : World)
    (r : Option (Address × TftpPacket))
    → w.trace ≡ before.trace ++ es
    → Attempts client (data_datagram block chunk) max_retries true es
    → Arrival w after r
    → Ran before (judge_answer block r after) (Round client block chunk)
unfolding judge_answer
judge_answer-Round client block chunk es before w after none t tries (nothing same) = record {
  end = ack_timeout;
  after = after;
  events = es;
  returns = refl;
  trace_is = same ∙ t;
  holds = no_answer tries;
}
judge_answer-Round client block chunk es before w after (some (a, p)) t tries (arrived _ _ more) =
    elim (Bool-cases (is_ack_of block p)) [
      | inl good ↦ rw good (record {
        end = completed;
        after = after;
        events = es ++ got a p ∷ [];
        returns = refl;
        trace_is = more ∙ rw t (append_assoc before.trace es (got a p ∷ []));
        holds = acked es a p refl tries good;
      })
      | inr bad ↦ rw bad (record {
        end = invalid_ack;
        after = after;
        events = es ++ got a p ∷ [];
        returns = refl;
        trace_is = more ∙ rw t (append_assoc before.trace es (got a p ∷ []));
        holds = other_answer es a p refl tries bad;
      })
    ]

module _ (net : Net) (h : HashOrder) (client : Address) (timeout_secs : ℤ) where
  await_ack-Round :
      (block : ℕ) (chunk : Bytes) (before w : World) (done : Bool)
      → Tried client (data_datagram block chunk) max_retries before done w
      → Ran before (await_ack net h client timeout_secs block done w) (Round client block chunk)
  unfolding await_ack
  await_ack-Round block chunk before w false t = record {
    end = send_failed;
    after = w;
    events = t.events;
    returns = refl;
    trace_is = t.trace_is;
    holds = not_sent t.attempts;
  }
  await_ack-Round block chunk before w true t =
      let (r, after, e, arrival) = receive_packet-Arrival net (to_millis timeout_secs) w in
      rw e (
        judge_answer-Round client block chunk t.events before w after r t.trace_is t.attempts
          arrival)

  pub read_round-Round :
      (file : Bytes) (block offset : ℕ) (w : World)
      → Ran w
          (read_round net h client timeout_secs file block offset w)
          (Round client block (chunk_at file offset))
  unfolding read_round
  read_round-Round file block offset w =
      let chunk = chunk_at file offset in
      let size : length chunk ≤ max_data_size =
        omega (arith, length-chunk_at file offset, block_size_at-le file offset) in
      let (p, created, written) = create_data-chunk h block chunk size in
      let (done, after, e, t) =
        send_packet-Tried net h client p (data_datagram block chunk) w written in
      rw created (rw e (await_ack-Round block chunk w after done t))
