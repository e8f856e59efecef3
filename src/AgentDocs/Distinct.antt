-- ===== src/AgentDocs/Distinct.antt =====
-- internal/agentdocs/generate.go: the paths of a plan.
use mathlib.Core.Bool.{Bool-set}
use mathlib.Core.List.{Permᴰ, Perm}
use mathlib.Core.Logic.{∥∥₁_elim}
use mathlib.Core.Path.{ap₂}
use dns_update.Prelude.{
  ◌≡◌, refl, sym, ap, ◌∙◌, Bool, true, false, not, ◌&&◌, List, [], ◌∷◌, ◌++◌, arith, Bool-cases,
  inl, inr, any_of-append,
}
use dns_update.Prelude.Rearrange.{any_of-perm}
use dns_update.Text.{Text, text_eq}
use dns_update.Text.Laws.{text_eq_comm}
use dns_update.Stdlib.{Stdlib}
use dns_update.Failure.{ok, step_ok}
use dns_update.AgentDocs.{Source, Output, Writers, render_contract, render_skill}
use dns_update.AgentDocs.Sources.{
  Files, has_path, add_outputs, add_skills, output_less, load_docs, split_sources, planned, plan,
}

abbrev pub distinct_paths : List Output → Bool
distinct_paths [] = true
distinct_paths (o ∷ outputs) = not (has_path o.path outputs) && distinct_paths outputs

distinct_paths-swap :
    (a b : Output) (l : List Output) → distinct_paths (a ∷ b ∷ l) ≡ distinct_paths (b ∷ a ∷ l)
distinct_paths-swap a b l = ground (arith, text_eq_comm a.path b.path)

distinctᴰ : {xs ys : List Output} → Permᴰ xs ys → distinct_paths xs ≡ distinct_paths ys
distinctᴰ Permᴰ.nil = refl
distinctᴰ (Permᴰ.cons {a} {b} {l₁} {l₂} e d) =
    rw e (cc (distinctᴰ d, any_of-perm (λ o. text_eq o.path b.path) ∣ d ∣₁))
distinctᴰ (Permᴰ.swap {a} {b} {l} e f) =
    distinct_paths-swap a b l ∙ ap₂ (λ x y. distinct_paths (x ∷ y ∷ l)) f e
distinctᴰ (Permᴰ.trans d e) = cc (distinctᴰ d, distinctᴰ e)

distinct_paths-perm : {xs ys : List Output} → Perm xs ys → distinct_paths xs ≡ distinct_paths ys
distinct_paths-perm q = ∥∥₁_elim q (Bool-set _ _) distinctᴰ

distinct_paths-snoc :
    (l : List Output) (o : Output)
    → distinct_paths l ≡ true
    → has_path o.path l ≡ false
    → distinct_paths (l ++ o ∷ []) ≡ true
distinct_paths-snoc [] o d h = refl
distinct_paths-snoc (x ∷ l) o d h = ground (
  arith,
  distinct_paths-snoc l o,
  any_of-append (λ (y : Output). text_eq y.path x.path) l (o ∷ []),
  text_eq_comm o.path x.path,
)

add_outputs-distinct :
    (outputs more final : List Output)
    → distinct_paths outputs ≡ true
    → add_outputs outputs more ≡ ok final
    → distinct_paths final ≡ true
unfolding add_outputs
add_outputs-distinct outputs [] final d h =
    let same : outputs ≡ final = cc in ap distinct_paths (sym same) ∙ d
add_outputs-distinct outputs (o ∷ more) final d h = elim (Bool-cases (has_path o.path outputs)) [
  | inl seen ↦ absurd (ground arith)
  | inr fresh ↦
      add_outputs-distinct (outputs ++ o ∷ []) more final (distinct_paths-snoc outputs o d fresh)
        (rw fresh at h)
]

add_skills-distinct :
    (writers : Writers) (outputs : List Output) (skills : List Source) (final : List Output)
    → distinct_paths outputs ≡ true
    → add_skills writers outputs skills ≡ ok final
    → distinct_paths final ≡ true
unfolding add_skills
add_skills-distinct writers outputs [] final d h =
    let same : outputs ≡ final = cc in ap distinct_paths (sym same) ∙ d
add_skills-distinct writers outputs (skill ∷ skills) final d h =
    let (more, added, rest) = step_ok (add_outputs outputs (render_skill writers skill)) _ h in
    add_skills-distinct writers more skills final
      (add_outputs-distinct outputs (render_skill writers skill) more d added) rest

contract-distinct :
    (writers : Writers) (contract : Source) (skills : List Source)
    → distinct_paths (render_contract writers contract skills) ≡ true
unfolding render_contract
contract-distinct writers contract skills = refl

module _ ⦃std : Stdlib⦄ (files : Files) (writers : Writers) (root : Text) where
  -- No two outputs of a plan have the same path, so that none is written over another.
  pub plan-distinct :
      (outputs : List Output) → plan files writers root ≡ ok outputs → distinct_paths outputs ≡ true
  unfolding plan
  plan-distinct outputs h =
      let (sources, loaded, rest) = step_ok (load_docs files writers root) _ h in
      let ((contract, skills), found, rest2) =
        step_ok (split_sources sources) (planned files writers root) rest in
      let (all, added, last) =
        step_ok (add_skills writers (render_contract writers contract skills) skills) _ rest2 in
      let same : std.sort_slice Output output_less all ≡ outputs = cc last in
      ap distinct_paths (sym same)
      ∙ distinct_paths-perm (std.sort_slice-perm Output output_less all)
      ∙ add_skills-distinct writers (render_contract writers contract skills) skills all
          (contract-distinct writers contract skills) added
