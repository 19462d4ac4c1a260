-- ===== src/Socket/Library.antt =====
-- src/tftp_socket.cpp: the guards of the socket library on Windows. `WSAStartup` may be called any number
-- of times, and each call that succeeds wants one call of `WSACleanup`. On the other systems a guard
-- calls nothing.
use tftpserver.Prelude.{
  ℕ, ◌+◌, ◌<◌, ◌≡◌, refl, ap, Bool, true, false, not, List, [], ◌∷◌, ◌++◌, if◌then◌else◌, arith,
}
use tftpserver.Prelude.Int.{ℤ, pos, eq_ℤ}

-- `initialized_` of each guard that lives, and the calls of WSAStartup that succeeded and of
-- WSACleanup.
pub record Library : Type 0 where
  pub guards : List Bool
  pub startups : ℕ
  pub cleanups : ℕ

-- The call with what WSAStartup returns, and its result.
unfoldable pub initialize_socket_library : ℤ → Library → Bool × Library
initialize_socket_library result s =
    if not (eq_ℤ result (pos 0)) then (false, s) else (true, record s { startups = s.startups + 1 })

unfoldable pub cleanup_socket_library : Library → Library
cleanup_socket_library s = record s { cleanups = s.cleanups + 1 }

-- The destructor of a guard.
unfoldable pub leave : Bool → Library → Library
leave initialized s = if initialized then cleanup_socket_library s else s

-- One step of a program with guards. The parameter says whether it copies them, which the class does
-- not forbid.
pub data Step (copies : Bool) (s : Library) : Library → Type 0 where
  construct :
      (result : ℤ)
      → Step copies s (
          let made = initialize_socket_library result s in
          record made.1 { guards = made.0 ∷ made.1.guards })
  copy :
      (before : List Bool) (g : Bool) (after : List Bool)
      → copies ≡ true
      → s.guards ≡ before ++ g ∷ after
      → Step copies s (record s { guards = g ∷ s.guards })
  destroy :
      (before : List Bool) (g : Bool) (after : List Bool)
      → s.guards ≡ before ++ g ∷ after
      → Step copies s (record (leave g s) { guards = before ++ after })

abbrev pub no_guards : Library
no_guards = record { guards = []; startups = 0; cleanups = 0 }

pub data Reach (copies : Bool) : Library → Type 0 where
  begin : Reach copies no_guards
  later : {s t : Library} → Reach copies s → Step copies s t → Reach copies t

-- How many guards have initialised the library.
abbrev pub initialized : List Bool → ℕ
initialized [] = 0
initialized (true ∷ gs) = initialized gs + 1
initialized (false ∷ gs) = initialized gs

initialized-append : (xs ys : List Bool) → initialized (xs ++ ys) ≡ initialized xs + initialized ys
initialized-append [] ys = omega arith
initialized-append (true ∷ xs) ys = omega (arith, initialized-append xs ys)
initialized-append (false ∷ xs) ys = initialized-append xs ys

Step-balance :
    {s t : Library}
    → Step false s t
    → s.startups ≡ s.cleanups + initialized s.guards
    → t.startups ≡ t.cleanups + initialized t.guards
unfolding initialize_socket_library
Step-balance {s} (construct result) e = ground arith
Step-balance (copy before g after allowed same) e = cc
Step-balance {s} (destroy before true after same) e =
    unfold leave cleanup_socket_library in
    omega (
      arith,
      e,
      ap initialized same,
      initialized-append before (true ∷ after),
      initialized-append before after,
    )
Step-balance {s} (destroy before false after same) e =
    unfold leave in
    omega (
      arith,
      e,
      ap initialized same,
      initialized-append before (false ∷ after),
      initialized-append before after,
    )

-- In a program that does not copy its guards, the library was started once for each guard that has
-- initialised it and lives, and once for each call of WSACleanup.
pub Reach-balance : {s : Library} → Reach false s → s.startups ≡ s.cleanups + initialized s.guards
Reach-balance begin = refl
Reach-balance (later r st) = Step-balance st (Reach-balance r)

-- A program that copies a guard cleans up more often than it has started the library.
pub copied_guard : (s : Library) × Reach true s × (s.startups < s.cleanups)
unfolding initialize_socket_library leave cleanup_socket_library
copied_guard =
    let copied = later (later begin (construct (pos 0))) (copy [] true [] refl refl) in
    (
      _,
      later (later copied (destroy [] true (true ∷ []) refl)) (destroy [] true [] refl),
      omega arith,
    )
