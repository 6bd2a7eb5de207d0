-- ===== src/Licenses/Tests.antt =====
-- Runs of the licenses.
use stack_warden.Base.{codes, true, false, some, [], ◌∷◌, Dict, Text, any, text_beq, lower, ◌≡◌}
use stack_warden.Specs.Examples.{sample_stack}
use stack_warden.Licenses.{Entry, spdx_map, evaluate_components, has_restricted, has_review}
use stack_warden.Licenses.Restricted.{last_entry, evaluate_components-has_restricted}

-- two entries of a package of the sample, in different case
abbrev listed : Dict Text Entry
listed =
    (codes "Torch", record { spdx = some (codes "BSD-3-Clause"); severity = some (codes "ok") })
    ∷ (codes "torch", record { spdx = some (codes "BSL"); severity = some (codes "restricted") })
    ∷ []

evaluate_components-has_restricted_example :
    let results = evaluate_components sample_stack (spdx_map listed) in
    (has_restricted results ≡ true) × (has_review results ≡ false)
unfolding any sample_stack last_entry text_beq lower spdx_map evaluate_components has_review
    has_restricted
evaluate_components-has_restricted_example = evaluate_components-has_restricted sample_stack listed
