-- ===== src/InstalledList/Marks.antt =====
-- src/installed_list.ts, installedMarks: the panel's marks, and what it is shown.
use yurt_playground.Base.{
  ℕ, ◌+◌, ◌≤◌, ◌≡◌, refl, ap, inl, inr, true, false, List, [], ◌∷◌, ◌++◌, Text, chars, ◌==◌,
  if◌then◌else◌, text_eq, includes, arith, Bool-cases,
}
use yurt_playground.InstalledList.{InstalledReport, has_names, unlisted, unknown}

-- What the panel is given: the marks to render, a note to show, a question to ask.
pub data Shown : Type 0 where
  asked : Shown
  rendered : List Text → Shown
  noted : Text → Shown

pub record Marks : Type 0 where
  pub known : List Text
  pub note : Text
  pub sandbox : ℕ
  pub shown : List Shown

abbrev pub new_marks : Marks
new_marks = record { known = []; note = []; sandbox = 0; shown = [] }

abbrev add_known : List Text → List Text → List Text
add_known [] known = known
add_known (name ∷ names) known =
    add_known names (if includes name known then known else known ++ name ∷ [])

set_note : Text → Marks → Marks
set_note text m =
    if text_eq text m.note then m else record m { note = text; shown = m.shown ++ noted text ∷ [] }

unfoldable pub render : Marks → Marks
render m = record m { shown = m.shown ++ rendered m.known ∷ [] }

unfoldable pub opened : Marks → Marks
opened m = record m { shown = m.shown ++ asked ∷ [] }

unfoldable pub report : InstalledReport → Marks → Marks
unfolding render set_note
report (has_names names) m = render (set_note [] (record m { known = add_known names [] }))
report (unknown error reset) m =
    let cleared =
      set_note (chars "cannot tell which packages are installed: " ++ error)
        (record m { known = [] }) in
    render (record cleared { sandbox = if reset then cleared.sandbox + 1 else cleared.sandbox })
report unlisted m = render (set_note [] m)

abbrev pub install_started : Marks → ℕ
install_started m = m.sandbox

unfoldable pub installed : ℕ → List Text → Marks → Marks
unfolding render
installed started names m =
    render (if started == m.sandbox then record m { known = add_known names m.known } else m)

-- What happens to the panel.
pub data Happening : Type 0 where
  opens rerenders : Happening
  reports : InstalledReport → Happening
  installs : ℕ → List Text → Happening

unfoldable pub happens : Happening → Marks → Marks
unfolding opened render report installed
happens opens m = opened m
happens rerenders m = render m
happens (reports r) m = report r m
happens (installs started names) m = installed started names m

unfoldable pub happen_all : List Happening → Marks → Marks
unfolding happens
happen_all [] m = m
happen_all (h ∷ hs) m = happen_all hs (happens h m)

sandbox_set_note : (text : Text) (m : Marks) → (set_note text m).sandbox ≡ m.sandbox
unfolding set_note
sandbox_set_note text m = elim (Bool-cases (text_eq text m.note)) [
  | inl e ↦ rw e refl
  | inr e ↦ rw e refl
]

-- The count of sandboxes never falls.
sandbox-happens : (h : Happening) (m : Marks) → m.sandbox ≤ (happens h m).sandbox
unfolding happens opened render report installed
sandbox-happens opens m = omega arith
sandbox-happens rerenders m = omega arith
sandbox-happens (reports (has_names names)) m =
    omega (arith, sandbox_set_note [] (record m { known = add_known names [] }))
sandbox-happens (reports unlisted) m = omega (arith, sandbox_set_note [] m)
sandbox-happens (reports (unknown error reset)) m =
    let same =
      sandbox_set_note (chars "cannot tell which packages are installed: " ++ error)
        (record m { known = [] }) in
    elim (Bool-cases reset) [
      | inl e ↦ rw e (omega (arith, same))
      | inr e ↦ rw e (omega (arith, same))
    ]
sandbox-happens (installs started names) m = elim (Bool-cases (started == m.sandbox)) [
  | inl e ↦ rw e (omega arith)
  | inr e ↦ rw e (omega arith)
]

sandbox-happen_all : (hs : List Happening) (m : Marks) → m.sandbox ≤ (happen_all hs m).sandbox
unfolding happen_all
sandbox-happen_all [] m = omega arith
sandbox-happen_all (h ∷ hs) m =
    omega (arith, sandbox-happens h m, sandbox-happen_all hs (happens h m))

reset-sandbox :
    (error : Text) (m : Marks) → (happens (reports (unknown error true)) m).sandbox ≡ m.sandbox + 1
unfolding happens report render
reset-sandbox error m =
    ap (λ t. t + 1)
      (sandbox_set_note (chars "cannot tell which packages are installed: " ++ error)
        (record m { known = [] }))

-- The plan of an install that began before the sandbox was replaced marks nothing: whatever happens
-- between its start, the replacement and its end, the marks stay what they were.
pub installed_before_reset :
    (m : Marks) (before after : List Happening) (error : Text) (names : List Text)
    → let at_end =
        happen_all after (happens (reports (unknown error true)) (happen_all before m)) in
      installed (install_started m) names at_end ≡ render at_end
unfolding installed
installed_before_reset m before after error names =
    let replaced = happens (reports (unknown error true)) (happen_all before m) in
    let at_end = happen_all after replaced in
    let later : (m.sandbox == at_end.sandbox) ≡ false = ground (
      arith,
      sandbox-happen_all before m,
      reset-sandbox error (happen_all before m),
      sandbox-happen_all after replaced,
    ) in
    rw later refl
