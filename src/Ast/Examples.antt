-- ===== src/Ast/Examples.antt =====
-- The queries and the collection of labels on a small transaction (transactions/mtl/collect_proper_label.hpp, transactions/mtl/contains_improper_labels.hpp,
-- transactions/mtl/contains_min_ofs.hpp).
use mix_t.Base.{◌⊎◌, inl, inr, List, [], ◌∷◌, ◌++◌, All, Elem, false, ◌≡◌, ◌↔◌}
use mix_t.Labels.Pgsql.{PgsqlLabel, strong, causal, pgsql_labels}
use mix_t.Labels.Term.{Label, concrete, temp_label, label_min_of}
use mix_t.Ast.{plain, var_reference, bin_op, greater, Statement, assignment, while, endorse}
use mix_t.Ast.Labelled.{AllStatement}
use mix_t.Ast.Surface.{IsConcrete, IsSurfaceStatement}
use mix_t.Ast.Collect.{LabelSets, collect_labels}
use mix_t.Ast.CollectLaws.{OnConcrete, collect_labels_iff}
use mix_t.Ast.Queries.{contains_improper_labels, contains_improper_labels_iff}

-- `while (x > endorse(strong, y)) { y = x }`, where `x` is causal.
abbrev countdown : Statement PgsqlLabel
countdown =
    while (temp_label 1 1)
      (bin_op (label_min_of (concrete causal) (temp_label 2 1)) (plain "bool") greater
        (var_reference (concrete causal) (plain "int") "x")
        (endorse (concrete strong) (plain "int")
          (var_reference (temp_label 2 1) (plain "int") "y")))
      (assignment (temp_label 1 2) (var_reference (temp_label 2 1) (plain "int") "y")
        (var_reference (concrete causal) (plain "int") "x"))

countdown_surface : IsSurfaceStatement countdown
countdown_surface = (tt, ((tt, tt, tt), tt, (tt, tt)), (tt, tt, tt))

contains_improper_labels_iff_example :
    (contains_improper_labels countdown ≡ false) ↔ AllStatement IsConcrete countdown
contains_improper_labels_iff_example = contains_improper_labels_iff countdown countdown_surface

pub Elem-append :
    {C : Type 0} (l : Label C) (xs ys : List (Label C))
    → Elem l (xs ++ ys) ↔ (Elem l xs ⊎ Elem l ys)
Elem-append l [] ys = (λ h. inr h, λ h. elim h [ inl p ↦ absurd p | inr q ↦ q ])
Elem-append l (x ∷ xs) ys =
    let (f, g) = Elem-append l xs ys in
    (
      λ h. elim h [
        | inl p ↦ inl (inl p)
        | inr q ↦ elim (f q) [ inl a ↦ inl (inr a) | inr b ↦ inr b ]
      ],
      λ h. elim h [
        | inl p ↦ elim p [ inl a ↦ inl a | inr b ↦ inr (g (inl b)) ]
        | inr q ↦ inr (g (inr q))
      ],
    )

-- Sets with their duplicates.
abbrev pub appended : LabelSets PgsqlLabel
appended = record { combine = λ xs ys. xs ++ ys; combine-Elem = Elem-append }

collect_labels_iff_example :
    All IsConcrete (collect_labels appended countdown)
    ↔ AllStatement (OnConcrete IsConcrete) countdown
collect_labels_iff_example =
    collect_labels_iff appended IsConcrete tt tt countdown countdown_surface
