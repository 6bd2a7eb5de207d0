-- ===== src/Licenses/Restricted.antt =====
-- Which stacks have a restricted license, or one to review:
-- packages/stackwarden/src/stackwarden/licenses/policy.py with licenses/spdx.py
use stack_warden.Base.{
  Text, codes, Bool, false, not, ◌&&◌, Option, none, some, List, [], ◌∷◌, ◌==◌, Dict, get, put,
  get-put, any, lower, text_eq, text_beq, eq_of_==, option_eq, if◌then◌else◌, map, ◌≡◌, refl, ◌∙◌,
  arith, Bool-cases, Option-cases, inl, inr,
}
use stack_warden.Specs.{PipDep}
use stack_warden.Specs.Profiles.{Stack}
use stack_warden.Licenses.{
  LicenseInfo, Entry, severity_of, info_of, enter_all, spdx_map, or_unknown_info, lookup,
  component_license, ComponentLicense, evaluate_components, is_restricted, is_review,
  has_restricted, has_review,
}

abbrev or_this : Option Entry → Option Entry → Option Entry
or_this none other = other
or_this (some e) other = some e

-- the last entry for a package, up to case
unfoldable pub last_entry : Text → Dict Text Entry → Option Entry
last_entry name [] = none
last_entry name ((pkg, e) ∷ entries) =
    or_this (last_entry name entries) (if lower pkg == lower name then some e else none)

abbrev info_or : Option LicenseInfo → Option Entry → Option LicenseInfo
info_or i none = i
info_or i (some e) = some (info_of e)

get-enter_all :
    (name : Text) (entries : Dict Text Entry) (entered : Dict Text LicenseInfo)
    → get (lower name) (enter_all entries entered)
      ≡ info_or (get (lower name) entered) (last_entry name entries)
unfolding enter_all last_entry
get-enter_all name [] entered = refl
get-enter_all name ((pkg, e) ∷ entries) entered =
    get-enter_all name entries (put (lower pkg) (info_of e) entered)
    ∙ elim (Option-cases (last_entry name entries)) [
      | inl absent ↦
          rw (absent, get-put (lower pkg) (lower name) (info_of e) entered) (ground arith)
      | inr (later, there) ↦ rw there refl
    ]

-- the severity that an entry says
abbrev pub says : Text → Option Entry → Bool
says severity none = false
says severity (some e) = e.severity == some severity

-- an entry says neither that a package is restricted nor that it is not
abbrev pub says_nothing : Option Entry → Bool
says_nothing e = not (says (codes "ok") e) && not (says (codes "restricted") e)

severity_of-says :
    (t : Option Text)
    → (is_restricted (severity_of t) ≡ (t == some (codes "restricted")))
      × (is_review (severity_of t)
          ≡ (not (t == some (codes "ok")) && not (t == some (codes "restricted"))))
unfolding severity_of text_beq
severity_of-says none = (refl, refl)
severity_of-says (some t) = elim (Bool-cases (t == codes "ok")) [
  | inl fine ↦ rw (eq_of_== t (codes "ok") fine) (refl, refl)
  | inr other ↦ (ground arith, ground arith)
]

severity-info_or :
    (e : Option Entry)
    → (is_restricted (or_unknown_info (info_or none e)).severity ≡ says (codes "restricted") e)
      × (is_review (or_unknown_info (info_or none e)).severity ≡ says_nothing e)
severity-info_or none = (refl, refl)
severity-info_or (some e) = severity_of-says e.severity

severity-lookup :
    (name : Text) (entries : Dict Text Entry)
    → (is_restricted (lookup name (spdx_map entries)).severity
        ≡ says (codes "restricted") (last_entry name entries))
      × (is_review (lookup name (spdx_map entries)).severity
          ≡ says_nothing (last_entry name entries))
unfolding lookup spdx_map get
severity-lookup name entries =
    rw (get-enter_all name entries []) (severity-info_or (last_entry name entries))

any-component_license :
    (entries : Dict Text Entry) (deps : List PipDep)
    → (any
          (λ (c : ComponentLicense). is_restricted c.severity)
          (map (component_license (spdx_map entries)) deps)
        ≡ any (λ (dep : PipDep). says (codes "restricted") (last_entry dep.name entries)) deps)
      × (any
            (λ (c : ComponentLicense). is_review c.severity)
            (map (component_license (spdx_map entries)) deps)
          ≡ any (λ (dep : PipDep). says_nothing (last_entry dep.name entries)) deps)
unfolding any component_license
any-component_license entries [] = (refl, refl)
any-component_license entries (dep ∷ deps) =
    let (restricts, reviews) = severity-lookup dep.name entries in
    let (rest, rest') = any-component_license entries deps in
    (rw (restricts, rest) refl, rw (reviews, rest') refl)

-- A stack has a restricted license exactly if for one of its pip packages the last entry of the map,
-- up to case, has the severity `restricted`, and one to review exactly if for one of them there is no
-- entry or its severity is neither `ok` nor `restricted`.
pub evaluate_components-has_restricted :
    (stack : Stack) (entries : Dict Text Entry)
    → let results = evaluate_components stack (spdx_map entries) in
      (has_restricted results
        ≡ any
            (λ (dep : PipDep). says (codes "restricted") (last_entry dep.name entries))
            stack.components.pip)
      × (has_review results
          ≡ any (λ (dep : PipDep). says_nothing (last_entry dep.name entries)) stack.components.pip)
unfolding evaluate_components has_restricted has_review
evaluate_components-has_restricted stack entries =
    any-component_license entries stack.components.pip
