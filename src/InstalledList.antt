-- ===== src/InstalledList.antt =====
-- src/installed_list.ts: pkg's installed list, its reading and what the panel marks of it. Parameter:
-- `decode`, the bytes of a list as text, none when they are not UTF-8 (a fatal TextDecoder).
pub mod Trip
pub mod Marks
mod Tests
use yurt_playground.Base.{
  ℕ, zero, suc, ◌+◌, Bool, true, false, not, List, [], ◌∷◌, ◌++◌, Option, none, some, Text, chars,
  Outcome, ok, err, ◌>>=◌, ◌==◌, if◌then◌else◌, text_eq, includes,
}
use yurt_playground.Packages.{split}
use yurt_playground.Packages.Releases.{InstalledRelease}

pub data ListError : Type 0 where
  not_utf8 : ListError
  not_fields : ℕ → ListError

-- `lines.at(-1) === ""`, and the pop.
pop_empty : List Text → List Text
pop_empty [] = []
pop_empty (line ∷ []) = if text_eq line [] then [] else line ∷ []
pop_empty (line ∷ next ∷ lines) = line ∷ pop_empty (next ∷ lines)

release_of : ℕ → List Text → Outcome ListError InstalledRelease
release_of i (name ∷ version ∷ build ∷ []) =
    if text_eq name []
    then err (not_fields (i + 1))
    else ok (record { name = name; version = version; build = build })
release_of i fields = err (not_fields (i + 1))

-- The lines from the `i`th on.
unfoldable pub parse_lines : ℕ → List Text → Outcome ListError (List InstalledRelease)
unfolding release_of
parse_lines i [] = ok []
parse_lines i (line ∷ lines) =
    release_of i (split 9 line) >>= (λ r. parse_lines (i + 1) lines >>= (λ rest. ok (r ∷ rest)))

unfoldable pub parse_text : Text → Outcome ListError (List InstalledRelease)
unfolding pop_empty
parse_text text = parse_lines 0 (pop_empty (split 10 text))

abbrev pub names_of_releases : List InstalledRelease → List Text
names_of_releases [] = []
names_of_releases (r ∷ releases) = r.name ∷ names_of_releases releases

-- What reading a file gives: its bytes if there is one, or a failure.
abbrev pub FileRead : Type 0
FileRead = Outcome Text (Option (List ℕ))

pub data InstalledReport : Type 0 where
  has_names : List Text → InstalledReport
  unlisted : InstalledReport
  unknown : Text → Bool → InstalledReport

module _ (decode : List ℕ → Option Text) where
  unfoldable pub parse_installed_list : List ℕ → Outcome ListError (List InstalledRelease)
  parse_installed_list bytes = elim (decode bytes) [
    | none ↦ err not_utf8
    | some text ↦ parse_text text
  ]

  pub installed_names : List ℕ → Outcome ListError (List Text)
  unfolding parse_installed_list
  installed_names bytes =
      parse_installed_list bytes >>= (λ releases. ok (names_of_releases releases))

module _ (decode : List ℕ → Option Text) (message : ListError → Text) where
  -- `none` is no list at all, for a page that has no files of its own.
  pub installed_releases : Option FileRead → Outcome Text (Option (List InstalledRelease))
  unfolding parse_installed_list
  installed_releases none = ok none
  installed_releases (some (err e)) = err e
  installed_releases (some (ok none)) = ok (some [])
  installed_releases (some (ok (some bytes))) = elim (parse_installed_list decode bytes) [
    | ok releases ↦ ok (some releases)
    | err e ↦ err (message e)
  ]

  -- The list's reading and then, without a list, whether there is a database.
  unfoldable pub installed_report : FileRead → Outcome Text Bool → InstalledReport
  unfolding installed_names
  installed_report (err e) database = unknown e false
  installed_report (ok (some bytes)) database = elim (installed_names decode bytes) [
    | ok names ↦ has_names names
    | err e ↦ unknown (message e) false
  ]
  installed_report (ok none) (err e) = unknown e false
  installed_report (ok none) (ok true) = unlisted
  installed_report (ok none) (ok false) = has_names []

  -- The coordinator's posts: at each point of a sandbox's life.
  pub data LifePoint : Type 0 where
    reads : Option (FileRead × Outcome Text Bool) → LifePoint
    dropped : LifePoint
    fresh_failed : Text → LifePoint

  pub posted : LifePoint → Option InstalledReport
  unfolding installed_report
  posted (reads none) = none
  posted (reads (some (list, database))) = some (installed_report list database)
  posted dropped = some (unknown (chars "a fresh sandbox is starting") true)
  posted (fresh_failed why) = some (unknown (chars "a fresh sandbox did not start: " ++ why) false)
