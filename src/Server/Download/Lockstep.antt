-- ===== src/Server/Download/Lockstep.antt =====
-- The loop of `HandleReadRequest` as a transfer in lock step.
use tftpserver.Prelude.{
  ℕ, zero, suc, ◌+◌, ◌*◌, ◌≤◌, ◌<◌, ◌≡◌, ◌≢◌, refl, sym, ap, ◌∙◌, true, false, List, [], ◌∷◌, ◌++◌,
  Bytes, length, drop, arith, append-nil, append_assoc, take-append-drop, length-drop, drop-add,
  Bool-cases, inl, inr,
}
use tftpserver.Prelude.Int.{ℤ}
use tftpserver.Common.{max_data_size}
use tftpserver.Options.{HashOrder}
use tftpserver.Server.{Address, Net, Event, World, returned}
use tftpserver.Server.Io.Runs.{Ran}
use tftpserver.Server.Download.{
  ReadEnd, completed, not_found, too_large, out_of_fuel, goes_on, block_size_at, read_round,
  read_loop, read_fuel,
}
use tftpserver.Server.Download.Rounds.{
  Round, acked, not_sent, no_answer, other_answer, Transfer, stopped, last_block, next, next_block,
  chunk_at, length-chunk_at, block_size_at-le, read_round-Round,
}

nil_of_length : (xs : Bytes) → length xs ≤ 0 → xs ≡ []
nil_of_length [] h = refl
nil_of_length (x ∷ xs) h = absurd (omega arith)

-- What is left is the chunk and what is left after it.
chunk_split :
    (file : Bytes) (offset : ℕ)
    → drop offset file ≡ chunk_at file offset ++ drop (offset + block_size_at file offset) file
chunk_split file offset =
    let size = block_size_at file offset in
    let split : drop offset file ≡ chunk_at file offset ++ drop size (drop offset file) =
      sym (take-append-drop size (drop offset file)) in
    let behind = drop-add file (chunk_at file offset) (drop size (drop offset file)) offset split in
    split ∙ ap (λ r. chunk_at file offset ++ r) (rw (← behind, length-chunk_at file offset))

-- A short chunk is all that is left.
chunk_last :
    (file : Bytes) (offset : ℕ)
    → block_size_at file offset < max_data_size
    → chunk_at file offset ≡ drop offset file
unfolding block_size_at
chunk_last file offset short =
    let behind : drop (offset + block_size_at file offset) file ≡ [] =
      nil_of_length _ (ground (arith, length-drop (offset + block_size_at file offset) file)) in
    sym (chunk_split file offset ∙ rw behind (append-nil (chunk_at file offset)))

pub goes_on_completed :
    (end : ReadEnd) (size : ℕ)
    → size ≤ max_data_size
    → goes_on end size ≡ true
    → (end ≡ completed) × (size ≡ max_data_size)
unfolding goes_on
goes_on_completed completed size l h = ground arith
goes_on_completed _ size l h = cc

Round-ends :
    {client : Address} {block : ℕ} {chunk : Bytes} {es : List Event} {end : ReadEnd}
    → Round client block chunk es end
    → (end ≢ out_of_fuel) × (end ≢ not_found) × (end ≢ too_large)
Round-ends (acked es a p e t h) = ground arith
Round-ends (not_sent t) = ground arith
Round-ends (no_answer t) = ground arith
Round-ends (other_answer es a p e t h) = ground arith

-- Where the loop stops after a round.
stopped_or_last :
    (client : Address) (block : ℕ) (file : Bytes) (offset : ℕ) (es : List Event) (end : ReadEnd)
    → goes_on end (block_size_at file offset) ≡ false
    → Round client block (chunk_at file offset) es end
    → Transfer client block (drop offset file) es end
unfolding goes_on
stopped_or_last client block file offset es completed g r =
    let short : block_size_at file offset < max_data_size = ground arith in
    let whole = chunk_last file offset short in
    last_block (ground (arith, length-chunk_at file offset, ap length whole)) (rw whole at r) refl
stopped_or_last client block file offset es _ g r =
    stopped (chunk_at file offset) (drop (offset + block_size_at file offset) file)
      (chunk_split file offset) r (λ e. cc)

-- A transfer that ended for one of the handler's reasons.
pub record Ended (client : Address) (block : ℕ) (file : Bytes) (es : List Event) (end : ReadEnd)
    : Type 0 where
  pub transfer : Transfer client block file es end
  pub in_fuel : end ≢ out_of_fuel
  pub in_loop : (end ≢ not_found) × (end ≢ too_large)

module _ (net : Net) (h : HashOrder) (client : Address) (timeout_secs : ℤ) where
  pub read_loop_stops :
      (fuel : ℕ) (file : Bytes) (block offset : ℕ) (w : World) (end : ReadEnd) (after : World)
      → read_round net h client timeout_secs file block offset w ≡ (returned end, after)
      → goes_on end (block_size_at file offset) ≡ false
      → read_loop net h client timeout_secs (suc fuel) file block offset w ≡ (returned end, after)
  unfolding read_loop
  read_loop_stops fuel file block offset w end after e g = rw e (rw g)

  pub read_loop_next :
      (fuel : ℕ) (file : Bytes) (block offset : ℕ) (w : World) (end : ReadEnd) (after : World)
      → read_round net h client timeout_secs file block offset w ≡ (returned end, after)
      → goes_on end (block_size_at file offset) ≡ true
      → read_loop net h client timeout_secs (suc fuel) file block offset w
        ≡ read_loop net h client timeout_secs fuel file
            (next_block block)
            (offset + block_size_at file offset)
            after
  unfolding read_loop
  read_loop_next fuel file block offset w end after e g = rw e (rw g)

  -- With a round for each full block that is left and one more, the loop ends.
  pub read_loop-Ended :
      (fuel : ℕ) (file : Bytes) (block offset : ℕ) (w : World)
      → length file < offset + fuel * 512
      → offset ≤ length file
      → Ran w
          (read_loop net h client timeout_secs fuel file block offset w)
          (Ended client block (drop offset file))
  read_loop-Ended zero file block offset w l o = absurd (omega arith)
  read_loop-Ended (suc fuel) file block offset w l o =
      let r = read_round-Round net h client timeout_secs file block offset w in
      elim (Bool-cases (goes_on r.end (block_size_at file offset))) [
        | inl more ↦
            let (is_completed, full) =
              goes_on_completed r.end _ (block_size_at-le file offset) more in
            let left : offset + block_size_at file offset ≤ length file =
              unfold block_size_at in ground (arith, full) in
            let ih =
              read_loop-Ended fuel file (next_block block) (offset + block_size_at file offset)
                r.after (omega (arith, full)) left in
            rw (read_loop_next fuel file block offset w r.end r.after r.returns more) (record {
              end = ih.end;
              after = ih.after;
              events = r.events ++ ih.events;
              returns = ih.returns;
              trace_is = ih.trace_is ∙ rw r.trace_is (append_assoc w.trace r.events ih.events);
              holds = record {
                transfer =
                    next (chunk_at file offset) (drop (offset + block_size_at file offset) file)
                      r.events ih.events (chunk_split file offset)
                      (length-chunk_at file offset ∙ full) refl (rw is_completed at r.holds)
                      ih.holds.transfer;
                in_fuel = ih.holds.in_fuel;
                in_loop = ih.holds.in_loop;
              };
            })
        | inr done ↦
            let ends = Round-ends r.holds in
            rw (read_loop_stops fuel file block offset w r.end r.after r.returns done) (record {
              end = r.end;
              after = r.after;
              events = r.events;
              returns = refl;
              trace_is = r.trace_is;
              holds = record {
                transfer = stopped_or_last client block file offset r.events r.end done r.holds;
                in_fuel = ends.0;
                in_loop = (ends.1, ends.2);
              };
            })
      ]

  -- The loop over a whole file, with the fuel that the handler gives it.
  pub read_loop_whole :
      (file : Bytes) (w : World)
      → Ran w
          (read_loop net h client timeout_secs (read_fuel file) file 1 0 w)
          (Ended client 1 file)
  read_loop_whole file w = read_loop-Ended (read_fuel file) file 1 0 w (omega arith) (omega arith)
