-- ===== src/Provider/Meaning/Rearranged.antt =====
-- The IDs of a list, and the parts of a plan that `meaning` reads, on a rearrangement.
use mathlib.Core.Bool.{Bool-set}
use mathlib.Core.List.{Permᴰ, Perm}
use mathlib.Core.Logic.{∥∥₁_elim}
use mathlib.Core.Path.{ap₂}
use native.Mathlib.Decide.{ℕ_discrete}
use dns_update.Prelude.{◌≡◌, refl, ◌∙◌, Bool, true, false, List, [], ◌∷◌, arith, select}
use dns_update.Prelude.Rearrange.{any_of-perm}
use dns_update.Text.{Text, text_eq}
use dns_update.Text.Laws.{text_eq_comm}
use dns_update.Provider.{Record, Operation}
use dns_update.Provider.Meaning.{has_id, distinct_ids}

pub Record-discrete : Discrete Record
Record-discrete = hlevel ℕ_discrete

pub Records-set : IsSet (List Record)
Records-set = hlevel ℕ_discrete

pub Operations-set : IsSet (List Operation)
Operations-set = hlevel ℕ_discrete

distinct_ids-swap :
    (a b : Record) (l : List Record) → distinct_ids (a ∷ b ∷ l) ≡ distinct_ids (b ∷ a ∷ l)
distinct_ids-swap a b l = ground (arith, text_eq_comm a.id b.id)

distinctᴰ : {xs ys : List Record} → Permᴰ xs ys → distinct_ids xs ≡ distinct_ids ys
distinctᴰ Permᴰ.nil = refl
distinctᴰ (Permᴰ.cons {a} {b} {l₁} {l₂} e d) =
    rw e (cc (distinctᴰ d, any_of-perm (λ r. text_eq r.id b.id) ∣ d ∣₁))
distinctᴰ (Permᴰ.swap {a} {b} {l} e f) =
    distinct_ids-swap a b l ∙ ap₂ (λ x y. distinct_ids (x ∷ y ∷ l)) f e
distinctᴰ (Permᴰ.trans d e) = cc (distinctᴰ d, distinctᴰ e)

pub distinct_ids-perm : {xs ys : List Record} → Perm xs ys → distinct_ids xs ≡ distinct_ids ys
distinct_ids-perm q = ∥∥₁_elim q (Bool-set _ _) distinctᴰ

pub has_id-select :
    (p : Record → Bool) (id : Text) (l : List Record)
    → has_id id l ≡ false
    → has_id id (select p l) ≡ false
has_id-select p id [] h = refl
has_id-select p id (r ∷ l) h = ground (arith, has_id-select p id l)

pub distinct_ids-select :
    (p : Record → Bool) (l : List Record) → distinct_ids l ≡ true → distinct_ids (select p l) ≡ true
distinct_ids-select p [] h = refl
distinct_ids-select p (r ∷ l) h = ground (arith, distinct_ids-select p l, has_id-select p r.id l)
