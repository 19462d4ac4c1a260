-- ===== src/Path/Secure.antt =====
-- What `IsPathSecure` answers.
use tftpserver.Prelude.{
  ◌≡◌, ◌↔◌, refl, Bool, true, false, not, List, [], ◌∷◌, ◌++◌, some, Bytes, is_empty, NoNul, All,
  codes, Option-cases, inl, inr, arith,
}
use tftpserver.Prelude.Maybe.{guard, >>=-eq-some}
use tftpserver.Prelude.Search.{contains, contains_char, contains_char_iff, has_prefix_iff}
use tftpserver.Path.{
  FileSystem, begins_with, join, dangerous_patterns, is_dangerous, with_separator, check_target,
  is_path_secure,
}

-- The target of a path, as the file system resolves it, lies in the root directory.
pub record Inside (fs : FileSystem) (path root_dir : Bytes) : Type 0 where
  pub root_path : Bytes
  pub canonical_root : Bytes
  pub canonical_target : Bytes
  pub relative_path : Bytes
  pub below : Bytes
  pub root_is : fs.absolute root_dir ≡ some root_path
  pub canonical_root_is : fs.weakly_canonical root_path ≡ some canonical_root
  pub canonical_target_is : fs.weakly_canonical (join root_path path) ≡ some canonical_target
  pub target_is_below : canonical_target ≡ with_separator canonical_root ++ below
  pub relative_is : fs.relative canonical_target canonical_root ≡ some relative_path
  pub no_parent : contains (codes "..") relative_path ≡ false

-- The text of a path is harmless.
pub record Harmless (path : Bytes) : Type 0 where
  pub filled : is_empty path ≡ false
  pub no_nul : NoNul path
  pub no_slash : begins_with b'/' path ≡ false
  pub no_pattern : All (λ pattern. contains pattern path ≡ false) dangerous_patterns

is_dangerous_iff :
    (patterns : List Bytes) (path : Bytes)
    → (is_dangerous patterns path ≡ false) ↔ All (λ pattern. contains pattern path ≡ false) patterns
unfolding is_dangerous
is_dangerous_iff [] path = (λ _. tt, λ _. refl)
is_dangerous_iff (pattern ∷ patterns) path = ground (arith, is_dangerous_iff patterns path)

guard-eq-some : (b : Bool) {u : Unit {0}} → guard b ≡ some u → b ≡ true
guard-eq-some true h = refl
guard-eq-some false h = cc

module _ (fs : FileSystem) (path root_dir : Bytes) where
  check_target-Inside : check_target fs path root_dir ≡ some tt → Inside fs path root_dir
  unfolding check_target
  check_target-Inside h =
      let (root_path, e1, h1) = >>=-eq-some _ _ h in
      let (canonical_root, e2, h2) = >>=-eq-some _ _ h1 in
      let (canonical_target, e3, h3) = >>=-eq-some _ _ h2 in
      let (_, e4, h4) = >>=-eq-some _ _ h3 in
      let (relative_path, e5, h5) = >>=-eq-some _ _ h4 in
      let (below, e6) =
        (has_prefix_iff (with_separator canonical_root) canonical_target).0 (guard-eq-some _ e4) in
      record {
        root_path = root_path;
        canonical_root = canonical_root;
        canonical_target = canonical_target;
        relative_path = relative_path;
        below = below;
        root_is = e1;
        canonical_root_is = e2;
        canonical_target_is = e3;
        target_is_below = e6;
        relative_is = e5;
        no_parent = not-eq-true (guard-eq-some _ h5);
      }
    where
      not-eq-true : {b : Bool} → not b ≡ true → b ≡ false
      not-eq-true {b = false} e = refl
      not-eq-true {b = true} e = cc

  Inside-check_target : Inside fs path root_dir → check_target fs path root_dir ≡ some tt
  unfolding check_target
  Inside-check_target i =
      let within =
        (has_prefix_iff (with_separator i.canonical_root) i.canonical_target).1
          (i.below, i.target_is_below) in
      rw (i.root_is, i.canonical_root_is, i.canonical_target_is, within, i.relative_is, i.no_parent)
        refl

  Passed : Type 0
  Passed =
      (is_empty path ≡ false)
      × (is_empty root_dir ≡ false)
      × (contains_char 0 path ≡ false)
      × (begins_with b'/' path ≡ false)
      × (is_dangerous dangerous_patterns path ≡ false)
      × (check_target fs path root_dir ≡ some tt)

  tests-Passed : is_path_secure fs path root_dir ≡ true → Passed
  unfolding is_path_secure Passed
  tests-Passed h = elim (Option-cases (check_target fs path root_dir)) [
    | inl e ↦ ground (arith, h, e)
    | inr (tt, e) ↦ ground (arith, h, e)
  ]

  Passed-tests : Passed → is_path_secure fs path root_dir ≡ true
  unfolding is_path_secure Passed
  Passed-tests (a, b, c, d, e, f) = rw (a, b, c, d, e, f) refl

  -- `IsPathSecure` answers true for just the paths whose text is harmless and whose target, resolved
  -- by the file system, lies in the root directory; each exception of the file system is a refusal.
  pub is_path_secure_iff :
      (is_path_secure fs path root_dir ≡ true)
      ↔ ((is_empty root_dir ≡ false) × Harmless path × Inside fs path root_dir)
  unfolding Passed
  is_path_secure_iff = (
    λ h.
        let (a, b, c, d, e, f) = tests-Passed h in
        let harmless : Harmless path = record {
          filled = a;
          no_nul = (contains_char_iff path).0 c;
          no_slash = d;
          no_pattern = (is_dangerous_iff dangerous_patterns path).0 e;
        } in
        (b, harmless, check_target-Inside f),
    λ g.
        let (b, t, i) = g in
        Passed-tests (
          t.filled,
          b,
          (contains_char_iff path).1 t.no_nul,
          t.no_slash,
          (is_dangerous_iff dangerous_patterns path).1 t.no_pattern,
          Inside-check_target i,
        ),
  )
