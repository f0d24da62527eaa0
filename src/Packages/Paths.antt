-- ===== src/Packages/Paths.antt =====
-- A path that is accepted names a file below the directory that it is joined to: resolved as a URL or
-- a file system resolves it, part by part, it is the path itself.
use yurt_playground.Base.{
  ◌+◌, ◌≡◌, refl, sym, ◌∙◌, Bool, true, false, not, ◌&&◌, ◌||◌, List, [], ◌∷◌, ◌++◌, Text,
  append_assoc, append-nil, text_eq, if◌then◌else◌, ok, err, arith, starts_with, starts_with-append,
  drop, length, All,
}
use yurt_playground.Packages.{
  split, any, is_dots, check_relative, is_staged, only_staged, staging_dir, some_char, is_refused,
  unsupported_path,
}

abbrev without_last : List Text → List Text
without_last [] = []
without_last (part ∷ []) = []
without_last (part ∷ next ∷ parts) = part ∷ without_last (next ∷ parts)

-- An empty part and `.` stay where they are, `..` goes up, any other part goes down.
pub resolve : List Text → List Text → List Text
resolve at [] = at
resolve at (part ∷ parts) =
    if text_eq part [] || text_eq part (46 ∷ [])
    then resolve at parts
    else if text_eq part (46 ∷ 46 ∷ [])
    then resolve (without_last at) parts
    else resolve (at ++ part ∷ []) parts

-- No part is empty, `.` or `..`: the path goes down only.
resolve-down : (at parts : List Text) → any is_dots parts ≡ false → resolve at parts ≡ at ++ parts
unfolding resolve
resolve-down at [] h = sym (append-nil at)
resolve-down at (part ∷ parts) h =
    let tests : ((text_eq part [] || text_eq part (46 ∷ [])) ≡ false)
        × (text_eq part (46 ∷ 46 ∷ []) ≡ false)
        × (any is_dots parts ≡ false) =
      apart (text_eq part []) (text_eq part (46 ∷ [])) (text_eq part (46 ∷ 46 ∷ []))
        (any is_dots parts) h in
    rw (tests.0, tests.1)
      (resolve-down (at ++ part ∷ []) parts tests.2 ∙ append_assoc at (part ∷ []) parts)
  where
    apart :
        (a b c d : Bool)
        → ((a || b || c) || d) ≡ false
        → ((a || b) ≡ false) × (c ≡ false) × (d ≡ false)
    apart a b c d h = ground arith

-- Whatever path `checkRelative` accepts, it returns the path as it is, and from any directory the path
-- resolves to the directory's path with its own parts after it.
pub check_relative-resolve :
    (path accepted : Text) (directory : List Text)
    → check_relative path ≡ ok accepted
    → (accepted ≡ path) × (resolve directory (split 47 path) ≡ directory ++ split 47 path)
unfolding check_relative
check_relative-resolve path accepted directory h =
    let passed =
      by_test
        (text_eq path []
          || starts_with path (47 ∷ [])
          || some_char is_refused path
          || any is_dots (split 47 path))
        h in
    (passed.0, resolve-down directory (split 47 path) (last passed.1))
  where
    by_test :
        (test : Bool)
        → (if test then err (unsupported_path path) else ok path) ≡ ok accepted
        → (accepted ≡ path) × (test ≡ false)
    by_test true e = cc
    by_test false e = (let same : accepted ≡ path = cc in same, refl)

    last :
        (text_eq path []
            || starts_with path (47 ∷ [])
            || some_char is_refused path
            || any is_dots (split 47 path))
          ≡ false
        → any is_dots (split 47 path) ≡ false
    last e = ground arith

-- A staged file: its path is the staging directory's and parts below it.
abbrev pub IsBelow : Text → Type 0
IsBelow path =
    (rest : Text) × ((staging_dir ++ 47 ∷ []) ++ rest ≡ path)
    × ((directory : List Text) → resolve directory (split 47 rest) ≡ directory ++ split 47 rest)

is_staged-IsBelow : (path : Text) → is_staged path ≡ true → IsBelow path
unfolding is_staged
is_staged-IsBelow path h = (
  drop (length staging_dir + 1) path,
  starts_with-append path (staging_dir ++ 47 ∷ []) tests.0,
  λ directory. resolve-down directory (split 47 (drop (length staging_dir + 1) path)) tests.1,
)
  where
    both : (a b : Bool) → (a && not b) ≡ true → (a ≡ true) × (b ≡ false)
    both a b e = ground arith

    tests :
        (starts_with path (staging_dir ++ 47 ∷ []) ≡ true)
        × (any is_dots (split 47 (drop (length staging_dir + 1) path)) ≡ false)
    tests =
        both (starts_with path (staging_dir ++ 47 ∷ []))
          (any is_dots (split 47 (drop (length staging_dir + 1) path))) h

-- When the worker accepts the staged files, the path of each is the staging directory's, a slash, and
-- parts that, resolved from any directory, stay below it.
pub only_staged-IsBelow : (paths : List Text) → only_staged paths ≡ true → All IsBelow paths
unfolding only_staged
only_staged-IsBelow [] h = tt
only_staged-IsBelow (path ∷ paths) h =
    let both : (is_staged path ≡ true) × (only_staged paths ≡ true) = ground arith in
    (is_staged-IsBelow path both.0, only_staged-IsBelow paths both.1)
