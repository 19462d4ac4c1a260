-- ===== src/Server/Files.antt =====
-- The default callbacks of src/internal/tftp_server_impl.cpp: DefaultReadHandler and
-- DefaultWriteHandler. The file system is a parameter: a type of its states, and what the streams and
-- the functions of `std::filesystem` answer and do; `exists` does not throw.
use tftpserver.Prelude.{
  ℕ, ◌≡◌, refl, ap, ◌∙◌, subst, [], ◌∷◌, take, Bool, true, false, not, ◌&&◌, Option, none, some,
  Bytes, is_empty, length, Bool-cases, inl, inr, if◌then◌else◌,
}
use tftpserver.Prelude.Int.{ℤ, pos, negsuc}
use tftpserver.Server.{Thrown, returned, thrown}

pub record Files (D : Type 0) : Type 0 where
  pub parent_path : Bytes → Bytes
  pub exists : Bytes → D → Bool
  -- `none` is an exception
  pub create_directories : Bytes → D → Option D
  pub open_read : Bytes → D → Bool
  pub tellg : Bytes → D → ℤ
  -- reads this number of bytes
  pub read : Bytes → ℕ → D → Option Bytes
  -- opens the file for writing, which empties it
  pub open_write : Bytes → D → Option D
  -- hands the data to the stream
  pub write : Bytes → Bytes → D → Bool
  -- what `flush` and `close` make of the file; the code does not ask whether they succeed
  pub flush_close : Bytes → Bytes → D → D

take_all : (s : Bytes) → take (length s) s ≡ s
take_all [] = refl
take_all (c ∷ s) = ap (λ t. c ∷ t) (take_all s)

module _ {D : Type 0} (files : Files D) where
  unfoldable pub read_sized : Bytes → D → ℤ → Thrown (Option Bytes)
  read_sized path d (pos size) = returned (files.read path size d)
  read_sized path d (negsuc n) = thrown

  -- `reserve` throws at a size of -1, which is 2^64 - 1 as a `size_t`.
  unfoldable pub default_read_handler : Bytes → D → Thrown (Option Bytes)
  default_read_handler path d =
      if not (files.open_read path d) then returned none else read_sized path d (files.tellg path d)

  unfoldable pub written : Bytes → Bytes → D → Option D → Bool × D
  written path file d none = (false, d)
  written path file d (some opened) =
      let after = files.flush_close path file opened in
      if not (files.write path file opened)
      then (false, after)
      else if not (files.exists path after)
      then (false, after)
      else (true, after)

  unfoldable pub write_file : Bytes → Bytes → D → Bool × D
  write_file path file d = written path file d (files.open_write path d)

  unfoldable pub made_parent : Bytes → Bytes → D → Option D → Bool × D
  made_parent path file d none = (false, d)
  made_parent path file d (some d') = write_file path file d'

  unfoldable pub default_write_handler : Bytes → Bytes → D → Bool × D
  default_write_handler path file d =
      let parent = files.parent_path path in
      if not (is_empty parent) && not (files.exists parent d)
      then made_parent path file d (files.create_directories parent d)
      else write_file path file d

  -- The content of the file at a path, if there is one, and what it says of the calls: a file can be
  -- opened for reading when it is there, `tellg` at its end is its size, and `read` gives that many of its
  -- first bytes; and behind `close`, a stream that took the data has it in the file.
  pub record KeepsContent (content : Bytes → D → Option Bytes) : Type 0 where
    pub opens :
        (path file : Bytes) (d : D) → content path d ≡ some file → files.open_read path d ≡ true
    pub size :
        (path file : Bytes) (d : D)
        → content path d ≡ some file
        → files.tellg path d ≡ pos (length file)
    pub reads :
        (path file : Bytes) (n : ℕ) (d : D)
        → content path d ≡ some file
        → files.read path n d ≡ some (take n file)
    pub saves :
        (path file : Bytes) (d : D)
        → files.write path file d ≡ true
        → content path (files.flush_close path file d) ≡ some file

  module _ (content : Bytes → D → Option Bytes) (keeps : KeepsContent content) where
    content-read :
        (path file : Bytes) (d : D)
        → content path d ≡ some file
        → default_read_handler path d ≡ returned (some file)
    unfolding default_read_handler read_sized
    content-read path file d e =
        rw (keeps.opens path file d e, keeps.size path file d e)
          (ap returned (keeps.reads path file (length file) d e ∙ ap some (take_all file)))

    module _ (path file : Bytes) where
      -- A result of true means that the file has its content.
      abbrev pub Stored : Bool × D → Type 0
      Stored (true, d') = default_read_handler path d' ≡ returned (some file)
      Stored (false, d') = Unit

      written-Stored : (d : D) (o : Option D) → Stored (written path file d o)
      unfolding written
      written-Stored d none = tt
      written-Stored d (some opened) = elim (Bool-cases (files.write path file opened)) [
        | inr bad ↦ rw bad tt
        | inl good ↦ elim (Bool-cases (files.exists path (files.flush_close path file opened))) [
          | inr missing ↦ rw (good, missing) tt
          | inl there ↦
              rw (good, there) (content-read path file _ (keeps.saves path file opened good))
        ]
      ]

      made_parent-Stored : (d : D) (o : Option D) → Stored (made_parent path file d o)
      unfolding made_parent write_file
      made_parent-Stored d none = tt
      made_parent-Stored d (some d') = written-Stored d' (files.open_write path d')

      default_write_handler-Stored : (d : D) → Stored (default_write_handler path file d)
      unfolding default_write_handler write_file
      default_write_handler-Stored d =
          elim (Bool-cases (
            not (is_empty (files.parent_path path))
            && not (files.exists (files.parent_path path) d))) [
              | inl missing ↦
                  rw missing
                    (made_parent-Stored d (files.create_directories (files.parent_path path) d))
              | inr there ↦ rw there (written-Stored d (files.open_write path d))
            ]

      -- When the file system keeps the content of its files: if DefaultWriteHandler returns true,
      -- DefaultReadHandler gives the same bytes back from the state it leaves.
      pub default_read_handler-default_write_handler :
          (d d' : D)
          → default_write_handler path file d ≡ (true, d')
          → default_read_handler path d' ≡ returned (some file)
      default_read_handler-default_write_handler d d' h =
          subst Stored h (default_write_handler-Stored d)
