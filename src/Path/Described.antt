-- ===== src/Path/Described.antt =====
-- What `IsPathSecure` answers, said of the characters of the path and of where its target lies.
use tftpserver.Prelude.{
  ◌≡◌, ◌≢◌, ◌↔◌, ◌⊎◌, refl, sym, ap, ◌∙◌, true, [], ◌∷◌, ◌++◌, some, Bytes, NoNul, All, codes,
  append_assoc, inl, inr, Bool-cases,
}
use tftpserver.Prelude.Search.{Occurs}
use tftpserver.Path.{FileSystem, ends_with, join, with_separator, is_path_secure}
use tftpserver.Path.Places.{
  absent_iff, around, filled_iff, begins_with_iff, ends_with_iff, singles_iff,
}
use tftpserver.Path.Secure.{Harmless, Inside, is_path_secure_iff}

-- A relative path with no NUL, with none of the characters ~ $ % < > | ? *, and with no dot that is
-- followed by a dot, a slash or a backslash.
pub record IsHarmless (path : Bytes) : Type 0 where
  pub filled : path ≢ []
  pub no_nul : NoNul path
  pub is_relative : (rest : Bytes) → path ≢ b'/' ∷ rest
  pub no_special : All (λ c. All (λ d. d ≢ c) path) (codes "~$%<>|?*")
  pub no_dots : ¬ Occurs (codes "..") path
  pub no_dot_slash : ¬ Occurs (codes "./") path
  pub no_dot_backslash : ¬ Occurs (codes ".\\") path

-- A path continues another one behind a slash, or at once if that one is empty or ends with a slash.
abbrev pub Continues : Bytes → Bytes → Type 0
Continues root target =
    ((rest : Bytes) × (target ≡ root ++ (b'/' ∷ rest)))
    ⊎ (((root ≡ []) ⊎ ((front : Bytes) × (root ≡ front ++ (b'/' ∷ []))))
        × (rest : Bytes) × (target ≡ root ++ rest))

-- The target, as the file system resolves it, lies below the root directory as it resolves that one,
-- and the way from the one to the other has no `..`.
pub record LiesBelow (fs : FileSystem) (path root_dir : Bytes) : Type 0 where
  pub root_path : Bytes
  pub root : Bytes
  pub target : Bytes
  pub relative_path : Bytes
  pub root_path_is : fs.absolute root_dir ≡ some root_path
  pub root_is : fs.weakly_canonical root_path ≡ some root
  pub target_is : fs.weakly_canonical (join root_path path) ≡ some target
  pub continues : Continues root target
  pub relative_is : fs.relative target root ≡ some relative_path
  pub no_parent : ¬ Occurs (codes "..") relative_path

module _ (path : Bytes) where
  Harmless-IsHarmless : Harmless path → IsHarmless path
  Harmless-IsHarmless t =
      let rest = t.no_pattern.1.1.1.1.1 in
      record {
        filled = (filled_iff path).0 t.filled;
        no_nul = t.no_nul;
        is_relative = (begins_with_iff b'/' path).0 t.no_slash;
        no_special = (singles_iff path (codes "~$%<>|?*")).0 rest.1.1.1.1;
        no_dots = (absent_iff (codes "..") path).0 t.no_pattern.0;
        no_dot_slash = (absent_iff (codes "./") path).0 rest.1.0;
        no_dot_backslash = (absent_iff (codes ".\\") path).0 rest.0;
      }

  IsHarmless-Harmless : IsHarmless path → Harmless path
  IsHarmless-Harmless t = record {
    filled = (filled_iff path).1 t.filled;
    no_nul = t.no_nul;
    no_slash = (begins_with_iff b'/' path).1 t.is_relative;
    no_pattern = (
      (absent_iff (codes "..") path).1 t.no_dots,
      (
        around [] (codes "..") (codes "\\") path t.no_dots,
        (
          around [] (codes "..") (codes "/") path t.no_dots,
          (
            around (codes "\\") (codes "..") (codes "\\") path t.no_dots,
            (
              around (codes "/") (codes "..") [] path t.no_dots,
              (
                (absent_iff (codes ".\\") path).1 t.no_dot_backslash,
                (
                  (absent_iff (codes "./") path).1 t.no_dot_slash,
                  (
                    around (codes "\\") (codes ".\\") [] path t.no_dot_backslash,
                    (
                      around (codes "/") (codes "./") [] path t.no_dot_slash,
                      (singles_iff path (codes "~$%<>|?*")).1 t.no_special,
                    ),
                  ),
                ),
              ),
            ),
          ),
        ),
      ),
    );
  }

-- What `with_separator` makes of a root directory.
separator_cases :
    (root : Bytes)
    → (((root ≡ []) ⊎ ((front : Bytes) × (root ≡ front ++ (b'/' ∷ []))))
        × (with_separator root ≡ root))
      ⊎ (with_separator root ≡ root ++ (b'/' ∷ []))
unfolding with_separator
separator_cases [] = inl (inl refl, refl)
separator_cases (c ∷ root) = elim (Bool-cases (ends_with b'/' (c ∷ root))) [
  | inl slash ↦ inl (inr ((ends_with_iff b'/' (c ∷ root)).0 slash), rw slash refl)
  | inr none_there ↦ inr (rw none_there refl)
]

ended_separator :
    (root : Bytes)
    → (root ≡ []) ⊎ ((front : Bytes) × (root ≡ front ++ (b'/' ∷ [])))
    → with_separator root ≡ root
unfolding with_separator
ended_separator root (inl e) = rw e refl
ended_separator [] (inr o) = refl
ended_separator (c ∷ root) (inr o) = rw ((ends_with_iff b'/' (c ∷ root)).1 o) refl

module _ (root target : Bytes) where
  separator-Continues :
      (below : Bytes) → target ≡ with_separator root ++ below → Continues root target
  separator-Continues below e = elim (separator_cases root) [
    | inl (ended, same) ↦ inr (ended, below, e ∙ ap (λ t. t ++ below) same)
    | inr added ↦
        inl (below, e ∙ (ap (λ t. t ++ below) added ∙ append_assoc root (b'/' ∷ []) below))
  ]

  Continues-separator :
      Continues root target → (below : Bytes) × (target ≡ with_separator root ++ below)
  Continues-separator (inl (rest, e)) = elim (separator_cases root) [
    | inl (_, same) ↦ (b'/' ∷ rest, e ∙ ap (λ t. t ++ (b'/' ∷ rest)) (sym same))
    | inr added ↦
        (rest, e ∙ (sym (append_assoc root (b'/' ∷ []) rest) ∙ ap (λ t. t ++ rest) (sym added)))
  ]
  Continues-separator (inr (ended, rest, e)) =
      (rest, e ∙ ap (λ t. t ++ rest) (sym (ended_separator root ended)))

module _ (fs : FileSystem) (path root_dir : Bytes) where
  Inside-LiesBelow : Inside fs path root_dir → LiesBelow fs path root_dir
  Inside-LiesBelow i = record {
    root_path = i.root_path;
    root = i.canonical_root;
    target = i.canonical_target;
    relative_path = i.relative_path;
    root_path_is = i.root_is;
    root_is = i.canonical_root_is;
    target_is = i.canonical_target_is;
    continues = separator-Continues i.canonical_root i.canonical_target i.below i.target_is_below;
    relative_is = i.relative_is;
    no_parent = (absent_iff (codes "..") i.relative_path).0 i.no_parent;
  }

  LiesBelow-Inside : LiesBelow fs path root_dir → Inside fs path root_dir
  LiesBelow-Inside l =
      let (below, e) = Continues-separator l.root l.target l.continues in
      record {
        root_path = l.root_path;
        canonical_root = l.root;
        canonical_target = l.target;
        relative_path = l.relative_path;
        below = below;
        root_is = l.root_path_is;
        canonical_root_is = l.root_is;
        canonical_target_is = l.target_is;
        target_is_below = e;
        relative_is = l.relative_is;
        no_parent = (absent_iff (codes "..") l.relative_path).1 l.no_parent;
      }

  -- `IsPathSecure` answers true just if the root directory is named, the path is relative and neither
  -- empty nor with a NUL, one of the characters ~ $ % < > | ? *, or a dot before a dot, a slash or a
  -- backslash, and if the file system resolves both without an exception, the target to the path of the
  -- root directory continued behind a slash (or at once, when that path is empty or ends with a slash),
  -- and finds a way from the one to the other without `..`.
  pub is_path_secure_described :
      (is_path_secure fs path root_dir ≡ true)
      ↔ ((root_dir ≢ []) × IsHarmless path × LiesBelow fs path root_dir)
  is_path_secure_described = (
    λ h.
        let (named, harmless, inside) = (is_path_secure_iff fs path root_dir).0 h in
        ((filled_iff root_dir).0 named, Harmless-IsHarmless path harmless, Inside-LiesBelow inside),
    λ h.
        (is_path_secure_iff fs path root_dir).1
          ((filled_iff root_dir).1 h.0, IsHarmless-Harmless path h.1, LiesBelow-Inside h.2),
  )
