-- ===== src/Path/Contained.antt =====
-- `NormalizePath` of the root directory and a path that `IsPathSecure` accepts.
use tftpserver.Prelude.{
  ap, ◌≡◌, ◌≢◌, refl, sym, ◌∙◌, true, false, [], ◌∷◌, ◌++◌, some, Bytes, is_empty, NoNul,
  All-append,
}
use tftpserver.Prelude.Search.{contains_char_iff}
use tftpserver.Path.{
  FileSystem, begins_with, ends_with, join, with_separator, is_path_secure, normalize_path,
}
use tftpserver.Path.Secure.{is_path_secure_iff}

-- A path below the root directory, as the file system resolves that directory.
pub record Below (fs : FileSystem) (root_dir target : Bytes) : Type 0 where
  pub canonical_root : Bytes
  pub rest : Bytes
  pub canonical_root_is : fs.weakly_canonical root_dir ≡ some canonical_root
  pub target_is : target ≡ with_separator canonical_root ++ rest

join_root :
    (root path : Bytes)
    → ends_with b'/' root ≡ true
    → begins_with b'/' path ≡ false
    → join root path ≡ root ++ path
unfolding join
join_root [] path e b = cc
join_root (c ∷ root) path e b = rw (b, e) refl

append_filled : (root path : Bytes) → ends_with b'/' root ≡ true → is_empty (root ++ path) ≡ false
append_filled [] path e = cc
append_filled (c ∷ root) path e = refl

normalize_path_resolved :
    (fs : FileSystem) (path target : Bytes)
    → is_empty path ≡ false
    → NoNul path
    → fs.weakly_canonical path ≡ some target
    → normalize_path fs path ≡ target
unfolding normalize_path
normalize_path_resolved fs path target f n e = rw (f, (contains_char_iff path).1 n, e) refl

-- For a root directory that is absolute and ends with a slash, the normalized path of a file name
-- that `IsPathSecure` accepts lies below the root directory.
pub normalize_path-Below :
    (fs : FileSystem) (root_dir filename : Bytes)
    → fs.absolute root_dir ≡ some root_dir
    → ends_with b'/' root_dir ≡ true
    → NoNul root_dir
    → is_path_secure fs filename root_dir ≡ true
    → Below fs root_dir (normalize_path fs (root_dir ++ filename))
normalize_path-Below fs root_dir filename absolute slash clean secure =
    let (_, harmless, inside) = (is_path_secure_iff fs filename root_dir).0 secure in
    let same_root : inside.root_path ≡ root_dir = some_same (sym inside.root_is ∙ absolute) in
    let resolved : fs.weakly_canonical (root_dir ++ filename) ≡ some inside.canonical_target =
      rw (← join_root root_dir filename slash harmless.no_slash, ← same_root)
        inside.canonical_target_is in
    let normalized =
      normalize_path_resolved fs (root_dir ++ filename) inside.canonical_target
        (append_filled root_dir filename slash)
        (All-append (λ c. c ≢ 0) root_dir filename clean harmless.no_nul) resolved in
    record {
      canonical_root = inside.canonical_root;
      rest = inside.below;
      canonical_root_is = ap fs.weakly_canonical (sym same_root) ∙ inside.canonical_root_is;
      target_is = normalized ∙ inside.target_is_below;
    }
  where
    some_same : {a b : Bytes} → some a ≡ some b → a ≡ b
    some_same e = cc
