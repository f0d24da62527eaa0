-- ===== src/Pins/Accepted/Built.antt =====
-- src/snapshot_pin.ts: buildMismatch, checkPythonSet, acceptedSnapshot and pinnedSnapshot.
use yurt_playground.Base.{
  Bool, true, false, List, [], ◌∷◌, ◌++◌, Option, none, some, Text, chars, Outcome, ok, err,
  if◌then◌else◌, text_eq, ℤ, starts_with, drop, length,
}
use yurt_playground.Pins.{Pins, PinError}
use yurt_playground.Pins.Value.{Json}
use yurt_playground.Pins.Snapshot.{SnapshotIdentity, BuiltFrom, SnapshotPin, parse_snapshot_pin}
use yurt_playground.Pins.Accepted.{
  SnapshotKind, desktop, tablet, phone, go, snapshot_identity, show_integer, int_eq, format_refusal,
  store_refusal, snapshot_kinds, platform,
}

-- The value of a key, `missing` where it has none.
pub data FieldValue : Type 0 where
  missing null : FieldValue
  text : Text → FieldValue
  number : ℤ → FieldValue

abbrev pub BuildFields : Type 0
BuildFields = List (Text × FieldValue)

abbrev pub text_or_null : Option Text → FieldValue
text_or_null none = null
text_or_null (some s) = text s

unfoldable pub identity_fields : SnapshotIdentity → BuildFields
identity_fields i =
    (chars "kernelSha256", text i.kernel_sha256)
    ∷ (chars "kernelRev", text i.kernel_rev)
    ∷ (chars "sealVersion", number i.seal_version)
    ∷ (chars "bootSetup", number i.boot_setup)
    ∷ (chars "imageSha256", text i.image_sha256)
    ∷ (chars "pythonSealSha256", text_or_null i.python_seal_sha256)
    ∷ []

unfoldable pub built_fields : BuiltFrom → BuildFields
unfolding identity_fields
built_fields b = identity_fields b.identity ++ (chars "pythonSet", text_or_null b.python_set) ∷ []

unfoldable pub field_at : Text → BuildFields → FieldValue
field_at key [] = missing
field_at key ((name, value) ∷ fields) = if text_eq name key then value else field_at key fields

unfoldable pub same_value : FieldValue → FieldValue → Bool
unfolding int_eq
same_value missing missing = true
same_value null null = true
same_value (text s) (text t) = text_eq s t
same_value (number m) (number n) = int_eq m n
same_value _ _ = false

abbrev show_value : FieldValue → Text
show_value missing = chars "undefined"
show_value null = chars "null"
show_value (text s) = s
show_value (number z) = show_integer z

-- `differs`: what each key that differs is.
unfoldable pub differences : BuildFields → BuildFields → List Text
unfolding field_at same_value
differences built [] = []
differences built ((key, wanted) ∷ want) =
    let rest = differences built want in
    let found = field_at key built in
    if same_value found wanted
    then rest
    else (key ++ 32 ∷ (show_value found ++ (chars ", not " ++ show_value wanted))) ∷ rest

-- `join("; ")`.
joined : List Text → Text
joined [] = []
joined (p ∷ []) = p
joined (p ∷ q ∷ ps) = p ++ (chars "; " ++ joined (q ∷ ps))

abbrev snapshot_words : Text
snapshot_words = chars "sandbox snapshot "

unfoldable pub no_mismatch_or : List Text → Option Text
unfolding joined
no_mismatch_or [] = none
no_mismatch_or (d ∷ differs) =
    some (snapshot_words ++ (chars "was built from " ++ joined (d ∷ differs)))

unfoldable pub build_mismatch : Option BuildFields → BuildFields → Option Text
unfolding differences no_mismatch_or
build_mismatch none expected =
    some (snapshot_words ++ chars "does not say what it was built from (an older format)")
build_mismatch (some built) expected = no_mismatch_or (differences built expected)

-- `replace(/^sandbox snapshot /, "")`.
abbrev without_words : Text → Text
without_words why = if starts_with why snapshot_words then drop (length snapshot_words) why else why

-- A SnapshotMismatch, by its message.
abbrev pub SnapshotMismatch : Type 0
SnapshotMismatch = Text

-- `a ?? b`.
abbrev or_second : Option Text → Option Text → Option Text
or_second (some a) b = some a
or_second none b = b

unfoldable pub carries_store : SnapshotPin → Bool
carries_store pin = elim pin.store [ none ↦ false | some _ ↦ true ]

unfoldable pub refusal_of : SnapshotPin → Option Bool → Option Text
unfolding format_refusal store_refusal carries_store
refusal_of pin root_store =
    or_second (format_refusal pin.format) (store_refusal (carries_store pin) root_store)

-- The checks' two answers.
unfoldable pub verdict :
    Text → SnapshotPin → Option Text → Option Text → Outcome SnapshotMismatch SnapshotPin
verdict what pin (some refused) why = err (chars "the " ++ (what ++ 32 ∷ refused))
verdict what pin none (some why) = err (what ++ 32 ∷ without_words why)
verdict what pin none none = ok pin

unfoldable pub checked_pin :
    Pins → Text → Option Bool → Outcome PinError SnapshotPin → Outcome SnapshotMismatch SnapshotPin
unfolding refusal_of build_mismatch built_fields identity_fields snapshot_identity verdict
checked_pin pins what root_store (err message) =
    err (chars "the " ++ (what ++ (chars " entry is malformed: " ++ message)))
checked_pin pins what root_store (ok pin) =
    verdict what pin (refusal_of pin root_store) (
      build_mismatch (some (built_fields pin.built_from))
        (identity_fields (snapshot_identity pins)))

unfoldable pub accepted_snapshot :
    Option Json → Pins → Text → Option Bool → Outcome SnapshotMismatch SnapshotPin
unfolding parse_snapshot_pin checked_pin
accepted_snapshot entry pins what root_store =
    checked_pin pins what root_store (parse_snapshot_pin entry)

abbrev pub kind_pin : SnapshotKind → Pins → Option Json
kind_pin desktop pins = pins.snapshot
kind_pin tablet pins = pins.tablet_snapshot
kind_pin phone pins = pins.phone_snapshot
kind_pin go pins = pins.go_snapshot

abbrev no_pin : SnapshotKind → SnapshotMismatch
no_pin desktop = chars "the site pins no sandbox snapshot"
no_pin kind =
    chars "the site pins no "
    ++ (platform kind ++ (chars " snapshot (" ++ ((snapshot_kinds [] kind).pin_key ++ chars ")")))

unfoldable pub pinned_snapshot :
    Pins → SnapshotKind → Option Bool → Outcome SnapshotMismatch SnapshotPin
unfolding accepted_snapshot
pinned_snapshot pins kind root_store = elim (kind_pin kind pins) [
  | none ↦ err (no_pin kind)
  | some entry ↦ accepted_snapshot (some entry) pins (chars "pinned snapshot") root_store
]

-- What the live index offers: nothing is known, there is no request, or a layer's key.
pub data LiveSet : Type 0 where
  unknown no_request : LiveSet
  key : Text → LiveSet

abbrev pub same_set : LiveSet → Option Text → Bool
same_set unknown set = true
same_set no_request none = true
same_set (key live) (some set) = text_eq live set
same_set _ _ = false

abbrev set_or_null : Option Text → Text
set_or_null none = chars "null"
set_or_null (some set) = set

set_mismatch : Option Text → LiveSet → SnapshotMismatch
set_mismatch set (key live) = elim set [
  | none ↦ chars "the snapshot holds no Python set, the live index offers " ++ live
  | some held ↦
      chars "the snapshot's Python set is " ++ (held ++ (chars ", the live index offers " ++ live))
]
set_mismatch set _ =
    chars
      "this page installs no Python (a phone, a shell-only session, or no pins), and the snapshot holds "
    ++ set_or_null set

unfoldable pub check_python_set : BuiltFrom → LiveSet → Outcome SnapshotMismatch (Unit {0})
unfolding set_mismatch
check_python_set built live =
    if same_set live built.python_set then ok tt else err (set_mismatch built.python_set live)
