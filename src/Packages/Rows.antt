-- ===== src/Packages/Rows.antt =====
-- src/packages.ts, markInstalled: the panel's rows, by what the sandbox is known to have.
use yurt_playground.Base.{
  ◌≡◌, refl, Bool, true, false, not, ◌&&◌, ◌||◌, List, [], ◌∷◌, Option, none, some, Text, chars,
  includes, if◌then◌else◌, map,
}

-- The packages that are never listed.
abbrev not_listed : List Text
not_listed = chars "python-seal" ∷ []

pub record PackageRow : Type 0 where
  pub package_key : Option Text
  pub hidden : Bool
  pub text_content : Text
  pub disabled : Bool

package_name : Option Text → Text
package_name none = []
package_name (some name) = name

mark_row : List Text → List Text → Bool → PackageRow → PackageRow
unfolding package_name
mark_row installed in_image busy row =
    let name = package_name row.package_key in
    let has = includes name installed in
    record row {
      hidden = includes name not_listed || (not has && includes name in_image);
      text_content = if has then chars "Installed" else chars "Install";
      disabled = busy || has;
    }

unfoldable pub mark_installed : List Text → List Text → Bool → List PackageRow → List PackageRow
unfolding mark_row
mark_installed installed in_image busy rows = map (mark_row installed in_image busy) rows

-- The row of a package that pkg installed.
marked_test :
    (mark_installed (chars "zsh" ∷ []) (chars "make" ∷ []) false (
      record {
        package_key = some (chars "zsh");
        hidden = true;
        text_content = [];
        disabled = false;
      }
      ∷ []))
    ≡ record {
      package_key = some (chars "zsh");
      hidden = false;
      text_content = chars "Installed";
      disabled = true;
    }
      ∷ []
unfolding mark_installed
marked_test = refl
