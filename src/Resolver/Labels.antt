-- ===== src/Resolver/Labels.antt =====
-- What the labels of a plan say: packages/stackwarden/src/stackwarden/resolvers/resolver.py
use stack_warden.Base.{
  Text, codes, Bool, true, false, not, Option, none, some, [], ◌∷◌, Dict, get, get-put, put, keys,
  any, if◌then◌else◌, ==_refl, starts_with, is_empty, strip, ◌==◌, text_beq, text_eq, text_ord,
  sort_by, ◌≡◌, refl, ◌∙◌, ap, arith, pos,
}
use stack_warden.Specs.Profiles.{Stack}
use stack_warden.Compatibility.Records.{TupleDecision}
use stack_warden.Optimization.Decision.{BuildOptimizationDecision}
use stack_warden.Builds.Drift.{label, layer_label}
use stack_warden.Resolver.Fingerprint.{or_blank}
use stack_warden.Resolver.Plans.{layer_version}
use stack_warden.Resolver.Resolve.{Outside, Moment, Request, fixed_labels, put_if, plan_labels}

get-put_other :
    (key k : Text) (v : Text) (d : Dict Text Text)
    → (key == k) ≡ false
    → get k (put key v d) ≡ get k d
get-put_other key k v d h = ground (arith, get-put key k v d)

get-put_if :
    (test : Bool) (key k : Text) (v : Text) (d : Dict Text Text)
    → (key == k) ≡ false
    → get k (put_if test key v d) ≡ get k d
get-put_if true key k v d h = get-put_other key k v d h
get-put_if false key k v d h = refl

abbrev or_default : Text → Option Text → Text
or_default t o = elim o [ none ↦ t | some w ↦ w ]

get-put_if_here :
    (test : Bool) (key v : Text) (d : Dict Text Text)
    → get key d ≡ none
    → or_default [] (get key (put_if test key v d)) ≡ (if test then v else [])
get-put_if_here true key v d h = ap (or_default []) (get-put key key v d) ∙ rw (==_refl key) refl
get-put_if_here false key v d h = ap (or_default []) h

-- the keys of the tool are kept
abbrev is_tool_key : Text → Bool
is_tool_key k = starts_with k (codes "stackwarden.")

any-keys-put :
    (key v : Text) (d : Dict Text Text)
    → any is_tool_key (keys d) ≡ true
    → any is_tool_key (keys (put key v d)) ≡ true
unfolding any put
any-keys-put key v [] h = absurd (cc)
any-keys-put key v ((j, w) ∷ d) h = ground (arith, any-keys-put key v d)

any-keys-put_if :
    (test : Bool) (key v : Text) (d : Dict Text Text)
    → any is_tool_key (keys d) ≡ true
    → any is_tool_key (keys (put_if test key v d)) ≡ true
any-keys-put_if true key v d h = any-keys-put key v d h
any-keys-put_if false key v d h = h

module _ (o : Outside) (now : Moment) (r : Request) (stack : Stack) (d : TupleDecision) (fp : Text)
    (b : BuildOptimizationDecision) where
  pub get-plan_labels :
      (k : Text)
      → (codes "stackwarden.host_optimization" == k) ≡ false
      → (codes "stackwarden.build_optimization" == k) ≡ false
      → (codes "stackwarden.pip_wheelhouse_path_hint" == k) ≡ false
      → (codes "stackwarden.variants" == k) ≡ false
      → get k (plan_labels o now r stack d fp b) ≡ get k (fixed_labels o now r stack d fp)
  unfolding plan_labels
  get-plan_labels k h1 h2 h3 h4 =
      get-put_other _ k _ _ h1
      ∙ (get-put_other _ k _ _ h2 ∙ (get-put_if _ _ k _ _ h3 ∙ get-put_if _ _ k _ _ h4))

  abbrev L : Dict Text Text
  L = plan_labels o now r stack d fp b

  pub label-fingerprint : label "fingerprint" L ≡ fp
  unfolding label text_beq get fixed_labels
  label-fingerprint =
      ap (or_default []) (get-plan_labels (codes "stackwarden.fingerprint") refl refl refl refl)

  pub label-base_digest : label "base_digest" L ≡ or_blank r.base_digest
  unfolding label text_beq get fixed_labels
  label-base_digest =
      ap (or_default []) (get-plan_labels (codes "stackwarden.base_digest") refl refl refl refl)

  pub label-template_hash : label "template_hash" L ≡ or_blank r.template_hash
  unfolding label text_beq get fixed_labels
  label-template_hash =
      ap (or_default []) (get-plan_labels (codes "stackwarden.template_hash") refl refl refl refl)

  pub label-schema_version : label "schema_version" L ≡ o.printing.str (pos stack.schema_version)
  unfolding label text_beq get fixed_labels
  label-schema_version =
      ap (or_default []) (get-plan_labels (codes "stackwarden.schema_version") refl refl refl refl)

  pub label-profile_schema_version :
      label "profile_schema_version" L ≡ o.printing.str (pos r.profile.schema_version)
  unfolding label text_beq get fixed_labels
  label-profile_schema_version =
      ap (or_default [])
        (get-plan_labels (codes "stackwarden.profile_schema_version") refl refl refl refl)

  pub label-builder_version : label "builder_version" L ≡ o.builder_version
  unfolding label text_beq get fixed_labels
  label-builder_version =
      ap (or_default []) (get-plan_labels (codes "stackwarden.builder_version") refl refl refl refl)

  pub label-variants :
      label "variants" L
      ≡ (if not (is_empty r.variants) then o.json_variants (sort_by (λ e. e.0) r.variants) else [])
  unfolding plan_labels label fixed_labels get text_beq
  label-variants =
      let k = codes "stackwarden.variants" in
      let fixed = fixed_labels o now r stack d fp in
      let hint = strip d.wheelhouse_hint in
      let variants = o.json_variants (sort_by (λ e. e.0) r.variants) in
      let named = put_if (not (is_empty r.variants)) k variants fixed in
      ap (or_default []) (
        get-put_other _ k _ _ refl
        ∙ (get-put_other _ k _ _ refl
            ∙ get-put_if (not (is_empty hint)) (codes "stackwarden.pip_wheelhouse_path_hint") k hint
                named refl))
      ∙ get-put_if_here (not (is_empty r.variants)) k variants fixed refl

  pub layer_label-plan_labels : layer_label L ≡ o.printing.str (pos (layer_version r.layers))
  unfolding layer_label text_beq get fixed_labels
  layer_label-plan_labels =
      ap (or_default (label "block_schema_version" L))
        (get-plan_labels (codes "stackwarden.layer_schema_version") refl refl refl refl)

  pub any-keys-plan_labels : any (λ k. starts_with k (codes "stackwarden.")) (keys L) ≡ true
  unfolding plan_labels fixed_labels any starts_with
  any-keys-plan_labels =
      let hint = strip d.wheelhouse_hint in
      let fixed = fixed_labels o now r stack d fp in
      let variants = o.json_variants (sort_by (λ e. e.0) r.variants) in
      let has_variants = not (is_empty r.variants) in
      let named = put_if has_variants (codes "stackwarden.variants") variants fixed in
      any-keys-put _ _ _ (
        any-keys-put _ _ _ (
          any-keys-put_if (not (is_empty hint)) (codes "stackwarden.pip_wheelhouse_path_hint") hint
            named
            (any-keys-put_if has_variants (codes "stackwarden.variants") variants fixed refl)))
