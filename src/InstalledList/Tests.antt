-- ===== src/InstalledList/Tests.antt =====
-- Runs of the list's reading and of the panel's marks.
use yurt_playground.Base.{◌≡◌, refl, true, arith, [], ◌∷◌, some, chars, ok, err}
use yurt_playground.Packages.{split}
use yurt_playground.Packages.Releases.{InstalledRelease}
use yurt_playground.InstalledList.{
  parse_text, parse_lines, parse_installed_list, not_fields, unknown,
}
use yurt_playground.InstalledList.Marks.{
  new_marks, render, installed, happens, happen_all, opens, reports, installed_before_reset,
}
use yurt_playground.InstalledList.Trip.{pkg_list, parse_installed_list-pkg_list}

abbrev zsh : InstalledRelease
zsh = record { name = chars "zsh"; version = chars "5.9.0"; build = chars "yurt_2" }

broken_line_test : parse_text (chars "zsh\n") ≡ err (not_fields 1)
unfolding parse_text parse_lines split
broken_line_test = refl

parse_installed_list-pkg_list_example :
    parse_installed_list (λ bytes. some bytes) (pkg_list (zsh ∷ [])) ≡ ok (zsh ∷ [])
parse_installed_list-pkg_list_example =
    parse_installed_list-pkg_list (λ bytes. some bytes) (pkg_list (zsh ∷ [])) (zsh ∷ []) refl
      (
        record {
          named = refl;
          name_plain = ground arith;
          version_plain = ground arith;
          build_plain = ground arith;
        },
        tt,
      )

installed_before_reset_example :
    installed 0 (chars "zsh" ∷ []) (
      happen_all []
        (happens (reports (unknown (chars "gone") true)) (happen_all (opens ∷ []) new_marks)))
    ≡ render (
        happen_all []
          (happens (reports (unknown (chars "gone") true)) (happen_all (opens ∷ []) new_marks)))
installed_before_reset_example =
    installed_before_reset new_marks (opens ∷ []) [] (chars "gone") (chars "zsh" ∷ [])
