-- ===== src/Inference/Between.antt =====
-- What holds between the turns of the solver, each for one label of the tree
-- (infer_labels_helper1 in transactions/mtl/label_inference.hpp).
use mix_t.Base.{
  String, true, ◌≡◌, ◌≢◌, ◌⊎◌, inl, inr, refl, sym, List, [], ◌∷◌, All, All-Elem, All-of_Elem, Elem,
}
use mix_t.Labels.Order.{LabelOrder}
use mix_t.Labels.Term.{Label, concrete, temp_label, label_min_of}
use mix_t.Ast.{Statement}
use mix_t.Ast.Surface.{IsSurfaceStatement}
use mix_t.Inference.Constraints.{MustFlowTo, must_flow_to}
use mix_t.Inference.CollapseLaws.{IsSimple}
use mix_t.Inference.Solve.{TypeLists, Solved}
use mix_t.Inference.Turn.{ConcreteFirst-IsPlaced, IsReady, IsSettled, IsKnownHigh, sort_All}
use mix_t.Inference.TurnSteps.{IsPrepared, IsTurn}

module _ {C : Type 0} ⦃o : LabelOrder C⦄ where
  -- Every label after another is a different one that flows to it, as sort_labels leaves them.
  abbrev pub IsAscending : List C → Type 0
  IsAscending [] = Unit
  IsAscending (l ∷ ls) = All (λ k. (o.flows_to k l ≡ true) × (k ≢ l)) ls × IsAscending ls

  -- What holds between the turns, with `labels` the labels of the tree, `past` those that had
  -- their turn and `todo` those that have not.
  pub record IsBetween (labels past todo : List C) (s : Statement C) (cs : List (MustFlowTo C))
      : Type 0 where
    pub simple : All IsSimple cs
    pub surface : IsSurfaceStatement s
    pub settled : All (λ l. All (IsSettled l) cs) past
    pub known_high : All (IsKnownHigh labels) cs
    pub covers : (l : C) → Elem l labels → Elem l past ⊎ Elem l todo
    pub within : (l : C) → Elem l todo → Elem l labels
    pub ascending : IsAscending todo
    pub fresh : All (λ l. All (λ d. d ≢ l) past) todo

  IsReady-of_settled :
      (l k : C) (h low : Label C) (w : String)
      → h ≡ concrete k
      → IsSettled k (must_flow_to h low w)
      → IsReady l (must_flow_to h low w)
  IsReady-of_settled l k (concrete h) (concrete _) w e st = tt
  IsReady-of_settled l k (concrete h) (label_min_of _ _) w e st = tt
  IsReady-of_settled l k (concrete h) (temp_label _ _) w e st = absurd (st cc)
  IsReady-of_settled l k (temp_label _ _) low w e st = tt
  IsReady-of_settled l k (label_min_of _ _) low w e st = tt

  IsReady-of_flows :
      (l k : C) (low : Label C) (w : String)
      → o.flows_to k l ≡ true
      → IsReady l (must_flow_to (concrete k) low w)
  IsReady-of_flows l k (concrete _) w f = tt
  IsReady-of_flows l k (label_min_of _ _) w f = tt
  IsReady-of_flows l k (temp_label _ _) w f = f

  module _ (labels past todo : List C) (l : C) (s : Statement C) (cs : List (MustFlowTo C))
      (b : IsBetween labels past (l ∷ todo) s cs) where
    IsReady-one :
        (h low : Label C) (w : String)
        → Elem (must_flow_to h low w) cs
        → IsReady l (must_flow_to h low w)
    IsReady-one (temp_label _ _) low w mem = tt
    IsReady-one (label_min_of _ _) low w mem = tt
    IsReady-one (concrete k) low w mem =
        elim (All-Elem (IsKnownHigh labels) cs (must_flow_to (concrete k) low w) b.known_high mem) [
          | inl top ↦ IsReady-of_flows l k low w (rw top (o.top_flows l))
          | inr e ↦ elim (b.covers k e) [
            | inl old ↦ IsReady-of_settled l k (concrete k) low w refl (
                All-Elem (IsSettled k) cs _
                  (All-Elem (λ x. All (IsSettled x) cs) past k b.settled old) mem)
            | inr (inl same) ↦ IsReady-of_flows l k low w (rw same (o.flows_refl l))
            | inr (inr later) ↦
                IsReady-of_flows l k low w
                  (All-Elem (λ x. (o.flows_to x l ≡ true) × (x ≢ l)) todo k b.ascending.0 later).0
          ]
        ]

    pub between-IsPrepared : (m : TypeLists C) → IsPrepared l s (m.sort cs)
    between-IsPrepared m =
        let simple = sort_All m IsSimple cs b.simple in
        record {
          simple = simple;
          ordered = ConcreteFirst-IsPlaced (m.sort cs) simple (m.sort-IsPlaced cs);
          ready =
              sort_All m (IsReady l) cs
                (All-of_Elem (IsReady l) cs (λ c mem. IsReady-one c.high c.low c.why mem));
          surface = b.surface;
        }

    -- After the turn of `l` it is one of the labels of the past.
    pub turn-IsBetween :
        (m : TypeLists C) (r : Solved C)
        → IsTurn l s (m.sort cs) r
        → IsBetween labels (l ∷ past) todo r.0 r.1
    turn-IsBetween m r t = record {
      simple = t.simple;
      surface = t.surface;
      settled = (
        t.settled,
        All-of_Elem (λ x. All (IsSettled x) r.1) past
            (λ x mem. t.keeps_settled x (All-Elem (λ d. d ≢ l) past x b.fresh.0 mem) (
              sort_All m (IsSettled x) cs
                (All-Elem (λ y. All (IsSettled y) cs) past x b.settled mem))),
      );
      known_high =
          t.keeps_known labels (b.within l (inl refl))
            (sort_All m (IsKnownHigh labels) cs b.known_high);
      covers = λ x mem. elim (b.covers x mem) [
        | inl old ↦ inl (inr old)
        | inr (inl same) ↦ inl (inl same)
        | inr (inr later) ↦ inr later
      ];
      within = λ x mem. b.within x (inr mem);
      ascending = b.ascending.1;
      fresh =
          All-of_Elem (λ x. All (λ d. d ≢ x) (l ∷ past)) todo
            (λ x mem. (
              λ same.
                  (All-Elem (λ k. (o.flows_to k l ≡ true) × (k ≢ l)) todo x b.ascending.0 mem).1
                    (sym same),
              All-Elem (λ y. All (λ d. d ≢ y) past) todo x b.fresh.1 mem,
            ));
    }
