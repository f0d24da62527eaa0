-- ===== src/InstalledList/Trip.antt =====
-- pkg's list, as it writes it, is read back.
use yurt_playground.Base.{
  ℕ, ◌+◌, ◌≡◌, refl, ap, ◌∙◌, false, List, [], ◌∷◌, ◌++◌, Option, some, Text, ok, ◌==◌, text_eq,
  All, All-append,
}
use yurt_playground.Packages.{split}
use yurt_playground.Packages.Split.{Lacks, split-Lacks, split-append}
use yurt_playground.Packages.Releases.{InstalledRelease}
use yurt_playground.InstalledList.{
  parse_lines, parse_text, parse_installed_list, pop_empty, release_of,
}

abbrev pub list_line : InstalledRelease → Text
list_line r = r.name ++ 9 ∷ (r.version ++ 9 ∷ r.build)

-- pkg's list: a line for each package, and its newline.
abbrev pub pkg_list : List InstalledRelease → Text
pkg_list [] = []
pkg_list (r ∷ releases) = list_line r ++ 10 ∷ pkg_list releases

pub record IsListed (r : InstalledRelease) : Type 0 where
  pub named : text_eq r.name [] ≡ false
  pub name_plain : Lacks 9 r.name × Lacks 10 r.name
  pub version_plain : Lacks 9 r.version × Lacks 10 r.version
  pub build_plain : Lacks 9 r.build × Lacks 10 r.build

line-Lacks : (r : InstalledRelease) → IsListed r → Lacks 10 (list_line r)
line-Lacks r l =
    All-append (λ d. (d == 10) ≡ false) r.name (9 ∷ (r.version ++ 9 ∷ r.build)) l.name_plain.1
      (
        refl,
        All-append (λ d. (d == 10) ≡ false) r.version (9 ∷ r.build) l.version_plain.1
            (refl, l.build_plain.1),
      )

fields_of_line :
    (r : InstalledRelease) → IsListed r → split 9 (list_line r) ≡ r.name ∷ r.version ∷ r.build ∷ []
fields_of_line r l =
    rw
      (
        split-append 9 r.name (r.version ++ 9 ∷ r.build) l.name_plain.0,
        split-append 9 r.version r.build l.version_plain.0,
        split-Lacks 9 r.build l.build_plain.0,
      )
      refl

abbrev lines_of_list : List InstalledRelease → List Text
lines_of_list [] = []
lines_of_list (r ∷ releases) = list_line r ∷ lines_of_list releases

split-pkg_list :
    (releases : List InstalledRelease)
    → All IsListed releases
    → split 10 (pkg_list releases) ≡ lines_of_list releases ++ [] ∷ []
unfolding split
split-pkg_list [] h = refl
split-pkg_list (r ∷ releases) (l, ls) =
    split-append 10 (list_line r) (pkg_list releases) (line-Lacks r l)
    ∙ ap (λ t. list_line r ∷ t) (split-pkg_list releases ls)

pop_empty-append : (lines : List Text) → pop_empty (lines ++ [] ∷ []) ≡ lines
unfolding pop_empty
pop_empty-append [] = refl
pop_empty-append (line ∷ []) = refl
pop_empty-append (line ∷ next ∷ lines) = ap (λ t. line ∷ t) (pop_empty-append (next ∷ lines))

parse_lines-list :
    (i : ℕ) (releases : List InstalledRelease)
    → All IsListed releases
    → parse_lines i (lines_of_list releases) ≡ ok releases
unfolding parse_lines release_of
parse_lines-list i [] h = refl
parse_lines-list i (r ∷ releases) (l, ls) =
    rw (fields_of_line r l, l.named, parse_lines-list (i + 1) releases ls) refl

-- pkg's list of some packages or of none, a line each with a newline after it, that the decoder gives as
-- text, is read to those packages, in their order, when none of them is without a name and none of their
-- fields has a tab or a newline.
pub parse_installed_list-pkg_list :
    (decode : List ℕ → Option Text) (bytes : List ℕ) (releases : List InstalledRelease)
    → decode bytes ≡ some (pkg_list releases)
    → All IsListed releases
    → parse_installed_list decode bytes ≡ ok releases
unfolding parse_installed_list parse_text
parse_installed_list-pkg_list decode bytes releases h listed =
    rw
      (
        parse_installed_list,
        h,
        split-pkg_list releases listed,
        pop_empty-append (lines_of_list releases),
      )
      (parse_lines-list 0 releases listed)
