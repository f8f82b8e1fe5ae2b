-- ===== src/Split/TestSets.antt =====
-- Searches and sets for tests of the split: functions in place of mutils::typelist and
-- mutils::typeset. Only plain types and loops are found.
use text.Mathlib.Text.{◌==◌ as str_eq}
use text.Mathlib.TextEquality.{eq_iff}
use mix_t.Base.{
  ◌==◌, Bool, true, false, ◌&&◌, ◌||◌, ◌≡◌, sym, ap, ap₂, inl, inr, Option, none, some, some-inj,
  List, [], ◌∷◌, ◌++◌, Elem, if◌then◌else◌, arith, Bool-cases,
}
use mix_t.Labels.Pgsql.{PgsqlLabel, top, strong, causal, bottom, pgsql_labels}
use mix_t.Labels.Term.{Label, concrete, is_same_label}
use mix_t.Ast.{Yield, plain, handle}
use mix_t.Split.Named.{loop_name}
use mix_t.Split.Api.{
  BindingSuper, binding_super, VariableBinding, type_binding, while_binding, BindingLists, super,
}
use mix_t.Split.TypeSets.{BindingName, variable, loop, TypeSets}

-- The searches on plain types and on loops.
abbrev same_plain : Yield PgsqlLabel → Yield PgsqlLabel → Bool
same_plain (plain s) (plain t) = str_eq s t
same_plain _ _ = false

same_plain-eq : (a b : Yield PgsqlLabel) → same_plain a b ≡ true → a ≡ b
same_plain-eq (plain s) (plain t) h = ap plain ((eq_iff s t).0 h)
same_plain-eq (plain s) (handle l t) h = cc
same_plain-eq (handle l s) b h = cc

abbrev derives : BindingSuper PgsqlLabel → Option (BindingSuper PgsqlLabel) → Bool
derives s none = false
derives s (some t) = str_eq t.name s.name && same_plain t.type s.type

derives-eq :
    (s : BindingSuper PgsqlLabel) (t : Option (BindingSuper PgsqlLabel))
    → derives s t ≡ true
    → t ≡ some s
derives-eq s none h = cc
derives-eq s (some t) h =
    ap₂ (λ x y. some (binding_super x y)) ((eq_iff t.name s.name).0 (ground arith))
      (same_plain-eq t.type s.type (ground arith))

abbrev find :
    BindingSuper PgsqlLabel
    → List (VariableBinding PgsqlLabel)
    → Option (VariableBinding PgsqlLabel)
find s [] = none
find s (b ∷ bs) = let rest = find s bs in if derives s (super b) then some b else rest

pub find_lem :
    (s : BindingSuper PgsqlLabel) (xs : List (VariableBinding PgsqlLabel))
    (b : VariableBinding PgsqlLabel)
    → find s xs ≡ some b
    → Elem b xs × (super b ≡ some s)
find_lem s [] b h = cc
find_lem s (x ∷ xs) b h = elim (Bool-cases (derives s (super x))) [
  | inl e ↦
      let same : some x ≡ some b = rw e at h in
      (inl (sym (some-inj x b same)), rw (sym (some-inj x b same)) (derives-eq s (super x) e))
  | inr e ↦
      let further : find s xs ≡ some b = rw e at h in
      let (p, q) = find_lem s xs b further in (inr p, q)
]

abbrev same_loop : VariableBinding PgsqlLabel → VariableBinding PgsqlLabel → Bool
same_loop (while_binding a) (while_binding b) = a.seqnum == b.seqnum && a.depth == b.depth
same_loop _ _ = false

same_loop-eq : (a b : VariableBinding PgsqlLabel) → same_loop a b ≡ true → a ≡ b
same_loop-eq (while_binding a) (while_binding b) h =
    ap₂ (λ q d. while_binding (loop_name q d)) (ground arith) (ground arith)
same_loop-eq (while_binding a) (type_binding x y l t) h = cc
same_loop-eq (type_binding x y l t) b h = cc

abbrev has : VariableBinding PgsqlLabel → List (VariableBinding PgsqlLabel) → Bool
has b [] = false
has b (x ∷ xs) = same_loop b x || has b xs

pub has-Elem :
    (b : VariableBinding PgsqlLabel) (xs : List (VariableBinding PgsqlLabel))
    → has b xs ≡ true
    → Elem b xs
has-Elem b [] h = cc
has-Elem b (x ∷ xs) h = elim (Bool-cases (same_loop b x)) [
  | inl e ↦ inl (same_loop-eq b x e)
  | inr e ↦ inr (has-Elem b xs (ground arith))
]

abbrev is_found : Option (VariableBinding PgsqlLabel) → Bool
is_found none = false
is_found (some b) = true

abbrev pub test_lists : BindingLists PgsqlLabel
test_lists = record {
  contains_subtype = λ s xs. is_found (find s xs);
  find_subtype = find;
  contained = has;
  find-Elem = find_lem;
  contained-Elem = has-Elem;
}

abbrev same_name : BindingName → BindingName → Bool
same_name (variable x) (variable y) = str_eq x y
same_name (loop a) (loop b) = a.seqnum == b.seqnum && a.depth == b.depth
same_name _ _ = false

abbrev contains : BindingName → List BindingName → Bool
contains n [] = false
contains n (x ∷ xs) = same_name n x || contains n xs

abbrev subtract : List BindingName → List BindingName → List BindingName
subtract [] ys = []
subtract (x ∷ xs) ys = let rest = subtract xs ys in if contains x ys then rest else x ∷ rest

abbrev concat : List (List BindingName) → List BindingName
concat [] = []
concat (x ∷ xs) = x ++ concat xs

abbrev any_found : List (Option (VariableBinding PgsqlLabel)) → Bool
any_found [] = false
any_found (x ∷ xs) = is_found x || any_found xs

abbrev pub test_sets : TypeSets PgsqlLabel
test_sets = record {
  add_all = λ xs. xs;
  to_typeset = λ xs. xs;
  add = λ xs b. b ∷ xs;
  contains_match = any_found;
  combine = λ xs ys. xs ++ ys;
  combine_lists = concat;
  subtract = subtract;
  contains = contains;
  to_typeset-Elem = λ b xs. (λ h. h, λ h. h);
  add-Elem = λ b c xs h. elim h [ inl e ↦ inr e | inr m ↦ inl m ];
}

-- The labels that occur, each once, from top down.
abbrev pub test_sorted : List (Label PgsqlLabel) → List (Label PgsqlLabel)
test_sorted ls = filtered (concrete top ∷ concrete strong ∷ concrete causal ∷ concrete bottom ∷ [])
  where
    any : Label PgsqlLabel → List (Label PgsqlLabel) → Bool
    any l [] = false
    any l (x ∷ xs) = is_same_label l x || any l xs

    filtered : List (Label PgsqlLabel) → List (Label PgsqlLabel)
    filtered [] = []
    filtered (x ∷ xs) = let rest = filtered xs in if any x ls then x ∷ rest else rest
