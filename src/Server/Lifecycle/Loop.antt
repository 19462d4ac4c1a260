-- ===== src/Server/Lifecycle/Loop.antt =====
-- What ServerLoop hands to HandleClient.
use tftpserver.Prelude.{
  ℕ, zero, suc, ◌≤◌, ◌≡◌, ◌⊎◌, refl, sym, ap, ◌∙◌, subst, true, false, List, [], ◌∷◌, ◌++◌, Bytes,
  All, length, take, drop, length-take, Bool-cases, inl, inr, arith,
}
use tftpserver.Prelude.Int.{ℤ, pos, negsuc, ltb_ℤ, pos_part}
use tftpserver.Common.{max_packet_size}
use tftpserver.Server.{Address}
use tftpserver.Server.Lifecycle.{Round, server_loop}

-- The buffer has its size, and `recvfrom` returns no more than that.
abbrev pub IsReceived : Round → Type 0
IsReceived r = (length r.buffer ≡ max_packet_size) × (pos_part r.recvlen ≤ max_packet_size)

-- A round brings no datagram, or one that the pool does not take.
abbrev pub IsDropped : Round → Type 0
IsDropped r =
    (ltb_ℤ (pos 0) r.recvlen ≡ false)
    ⊎ (r.pool_there ≡ false)
    ⊎ (r.shutting_down ≡ true)
    ⊎ (r.submits ≡ false)

-- A round brings this datagram, from this client, and a pool that is not shutting down takes it: it is
-- the front of the buffer, of the length that `recvfrom` has returned.
pub record IsTaken (r : Round) (datagram : Bytes) (client : Address) : Type 0 where
  pub unread : Bytes
  pub buffer_is : r.buffer ≡ datagram ++ unread
  pub length_is : r.recvlen ≡ pos (length datagram)
  pub filled : 1 ≤ length datagram
  pub sender_is : client ≡ r.client
  pub pool_is_there : r.pool_there ≡ true
  pub runs : r.shutting_down ≡ false
  pub accepted : r.submits ≡ true

-- The datagrams of some rounds that the pool takes, in order.
pub data Taken : List Round → List (Bytes × Address) → Type 0 where
  none_left : Taken [] []
  passed :
      (r : Round) (rounds : List Round) (datagrams : List (Bytes × Address))
      → IsDropped r
      → Taken rounds datagrams
      → Taken (r ∷ rounds) datagrams
  handed :
      (r : Round) (rounds : List Round) (datagrams : List (Bytes × Address)) (datagram : Bytes)
      (client : Address)
      → IsTaken r datagram client
      → Taken rounds datagrams
      → Taken (r ∷ rounds) ((datagram, client) ∷ datagrams)

abbrev pub IsOff : List Round → Type 0
IsOff [] = Unit
IsOff (r ∷ rounds) = r.flag ≡ false

-- The loop runs until it finds the flag cleared, or as long as there are rounds.
pub record Served (rounds : List Round) (datagrams : List (Bytes × Address)) : Type 0 where
  pub running : List Round
  pub behind : List Round
  pub rounds_are : rounds ≡ running ++ behind
  pub all_on : All (λ r. r.flag ≡ true) running
  pub off : IsOff behind
  pub taken : Taken running datagrams

split_at : (n : ℕ) (xs : Bytes) → xs ≡ take n xs ++ drop n xs
split_at zero xs = refl
split_at (suc n) [] = refl
split_at (suc n) (x ∷ xs) = ap (λ t. x ∷ t) (split_at n xs)

module _ (r : Round) (received : IsReceived r) where
  round-IsTaken :
      ltb_ℤ (pos 0) r.recvlen ≡ true
      → r.pool_there ≡ true
      → r.shutting_down ≡ false
      → r.submits ≡ true
      → IsTaken r (take (pos_part r.recvlen) r.buffer) r.client
  round-IsTaken h there runs accepted =
      let (n, positive, is_n) = positive_part r.recvlen h in
      let whole : length (take (pos_part r.recvlen) r.buffer) ≡ n =
        rw is_n (omega (arith, length-take n r.buffer, received.0, received.1, ap pos_part is_n)) in
      record {
        unread = drop (pos_part r.recvlen) r.buffer;
        buffer_is = split_at (pos_part r.recvlen) r.buffer;
        length_is = is_n ∙ ap pos (sym whole);
        filled = omega (arith, whole, positive);
        sender_is = refl;
        pool_is_there = there;
        runs = runs;
        accepted = accepted;
      }
    where
      positive_part : (z : ℤ) → ltb_ℤ (pos 0) z ≡ true → (n : ℕ) × (1 ≤ n) × (z ≡ pos n)
      positive_part (pos n) h = (n, ground (arith, h), refl)
      positive_part (negsuc n) h = absurd (ground (arith, h))

-- A running round in front.
add_round :
    (r : Round) (rounds : List Round) (datagrams more : List (Bytes × Address))
    → r.flag ≡ true
    → Served rounds datagrams
    → ((running : List Round) → Taken running datagrams → Taken (r ∷ running) more)
    → Served (r ∷ rounds) more
add_round r rounds datagrams more on s add = record {
  running = r ∷ s.running;
  behind = s.behind;
  rounds_are = ap (λ t. r ∷ t) s.rounds_are;
  all_on = (on, s.all_on);
  off = s.off;
  taken = add s.running s.taken;
}

pass_round :
    (r : Round) {rounds : List Round} {datagrams : List (Bytes × Address)}
    → Served rounds datagrams
    → IsDropped r
    → r.flag ≡ true
    → Served (r ∷ rounds) datagrams
pass_round r {rounds} {datagrams} s why on =
    add_round r rounds datagrams datagrams on s (λ running t. passed r running datagrams why t)

-- The three ends of a round.
round_cases :
    (r : Round) (rounds : List Round)
    → ((r.flag ≡ false) × (server_loop (r ∷ rounds) ≡ []))
      ⊎ ((r.flag ≡ true) × IsDropped r × (server_loop (r ∷ rounds) ≡ server_loop rounds))
      ⊎ ((r.flag ≡ true)
          × (ltb_ℤ (pos 0) r.recvlen ≡ true)
          × (r.pool_there ≡ true)
          × (r.shutting_down ≡ false)
          × (r.submits ≡ true)
          × (server_loop (r ∷ rounds)
              ≡ (take (pos_part r.recvlen) r.buffer, r.client) ∷ server_loop rounds))
unfolding server_loop
round_cases r rounds = elim (Bool-cases r.flag) [
  | inr off ↦ inl (off, rw off refl)
  | inl on ↦ elim (Bool-cases (ltb_ℤ (pos 0) r.recvlen)) [
    | inr nothing ↦ inr (inl (on, inl nothing, rw (on, nothing) refl))
    | inl some_bytes ↦ elim (Bool-cases r.pool_there) [
      | inr gone ↦ inr (inl (on, inr (inl gone), rw (on, some_bytes, gone) refl))
      | inl there ↦ elim (Bool-cases r.shutting_down) [
        | inl stops ↦ inr (inl (on, inr (inr (inl stops)), rw (on, some_bytes, there, stops) refl))
        | inr runs ↦ elim (Bool-cases r.submits) [
          | inr refused ↦
              inr
                (inl (on, inr (inr (inr refused)), rw (on, some_bytes, there, runs, refused) refl))
          | inl accepted ↦ inr (
              inr (
                on,
                some_bytes,
                there,
                runs,
                accepted,
                rw (on, some_bytes, there, runs, accepted) refl,
              ))
        ]
      ]
    ]
  ]
]

-- Whatever the flag, the pool and `recvfrom` bring in the rounds of the loop, when each result of
-- `recvfrom` is within the buffer of 516 bytes: the loop ends at the first round that finds the flag
-- cleared, or has run all rounds; and of the rounds it has run, it submits just the datagrams that
-- `recvfrom` brought, none of them empty, while there was a pool that was not shutting down, and that
-- `Submit` took: in order, each once, with its sender, and with all of its bytes and no other.
pub server_loop-Served :
    (rounds : List Round) → All IsReceived rounds → Served rounds (server_loop rounds)
server_loop-Served [] hs = record {
  running = [];
  behind = [];
  rounds_are = refl;
  all_on = tt;
  off = tt;
  taken = unfold server_loop in none_left;
}
server_loop-Served (r ∷ rounds) (h, hs) = elim (round_cases r rounds) [
  | inl (off, e) ↦ subst (Served (r ∷ rounds)) (sym e) (record {
    running = [];
    behind = r ∷ rounds;
    rounds_are = refl;
    all_on = tt;
    off = off;
    taken = none_left;
  })
  | inr (inl (on, why, e)) ↦
      subst (Served (r ∷ rounds)) (sym e) (pass_round r (server_loop-Served rounds hs) why on)
  | inr (inr (on, some_bytes, there, runs, accepted, e)) ↦ subst (Served (r ∷ rounds)) (sym e) (
      add_round r rounds _ _ on (server_loop-Served rounds hs) (λ running t.
        handed r running (server_loop rounds) _ r.client
          (round-IsTaken r h some_bytes there runs accepted) t))
]
