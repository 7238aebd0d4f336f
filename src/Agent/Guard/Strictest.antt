-- ===== src/Agent/Guard/Strictest.antt =====
-- `Decide` is the strictest verdict of the rules, whatever their order.
use mathlib.Core.List.{Perm, foldr, concat-ne-nil}
use mathlib.Core.List.Perm
use leartech_go_common.Base.{
  ℕ, ◌≤◌, ◌≡◌, ◌≢◌, refl, sym, ◌∙◌, ap, Bool, true, false, List, [], ◌∷◌, ◌++◌, Text, arith, ltb,
  if◌then◌else◌, some, get_elem?, ◌⊎◌, inl, inr, suc, Bool-cases,
}
use leartech_go_common.Agent.Guard.{
  Verdict, allow, deny, rank, Request, Rule, Policy, add_rule, tighten, judge, decide, no_policy,
}

-- The stricter of two verdicts.
abbrev pub stricter : Verdict → Verdict → Verdict
stricter v w = if ltb (rank v) (rank w) then w else v

-- The strictest verdict that any rule reaches.
abbrev pub strictest : Request → List Rule → Verdict
strictest req = foldr (λ rule v. stricter (rule req).0 v) allow

judge_fst :
    (rules : List Rule) (req : Request) (w : Verdict × Text) (m : Bool)
    → (judge rules req w m).0.0 ≡ stricter w.0 (strictest req rules)
unfolding judge tighten
judge_fst [] req w m = ground arith
judge_fst (rule ∷ rules) req w m = ground (arith, judge_fst rules req (tighten w (rule req)) true)

judge_matched :
    (rules : List Rule) (req : Request) (w : Verdict × Text) → (judge rules req w true).1 ≡ true
unfolding judge
judge_matched [] req w = refl
judge_matched (rule ∷ rules) req w = judge_matched rules req (tighten w (rule req))

decide_nonempty :
    (p : Policy) (req : Request)
    → p.rules ≢ []
    → decide p req ≡ (judge p.rules req (allow, []) false).0
unfolding decide
decide_nonempty p req h = nonempty p.rules h
  where
    nonempty :
        (rules : List Rule)
        → rules ≢ []
        → decide (record { rules = rules }) req ≡ (judge rules req (allow, []) false).0
    nonempty [] h = absurd (h refl)
    nonempty (rule ∷ rules) h = rw (judge_matched rules req (tighten (allow, []) (rule req)))

-- The verdict of a policy that has a rule is the strictest that any of its rules reaches.
pub decide-strictest :
    (p : Policy) (req : Request) → p.rules ≢ [] → (decide p req).0 ≡ strictest req p.rules
decide-strictest p req h =
    let verdict = judge_fst p.rules req (allow, []) false in
    ground (arith, decide_nonempty p req h, verdict)

Verdict-discrete : Discrete Verdict
Verdict-discrete = hlevel

Verdict-set : IsSet Verdict
Verdict-set = hlevel

stricter_left_comm : (a b x : Verdict) → stricter a (stricter b x) ≡ stricter b (stricter a x)
stricter_left_comm a b x = ground arith

strictest-perm :
    (req : Request) (xs ys : List Rule) → Perm xs ys → strictest req xs ≡ strictest req ys
strictest-perm req xs ys h =
    Perm.foldr-eq Verdict-set (λ rule v. stricter (rule req).0 v)
      (λ a b x. stricter_left_comm (a req).0 (b req).0 x) h allow

decide-nil : (p : Policy) (req : Request) → p.rules ≡ [] → decide p req ≡ (deny, no_policy)
unfolding decide
decide-nil p req h = ground arith

is_nil : (rules : List Rule) → (rules ≡ []) ⊎ (rules ≢ [])
is_nil [] = inl refl
is_nil (r ∷ rules) = inr (cc)

-- The order in which the rules were registered does not change the verdict.
pub decide-perm :
    (p q : Policy) (req : Request) → Perm p.rules q.rules → (decide p req).0 ≡ (decide q req).0
decide-perm p q req h = elim (is_nil p.rules) [
  | inl e ↦
      ap (λ d. d.0) (decide-nil p req e ∙ sym (decide-nil q req (sym (Perm.nil-eq (rw e at h)))))
  | inr ne ↦
      let ne' : q.rules ≢ [] = λ e. ne (Perm.eq-nil (rw e at h)) in
      cc (
        decide-strictest p req ne,
        decide-strictest q req ne',
        strictest-perm req p.rules q.rules h,
      )
]

strictest-append :
    (req : Request) (rules : List Rule) (r : Rule)
    → strictest req (rules ++ r ∷ []) ≡ stricter (strictest req rules) (r req).0
strictest-append req [] r = ground arith
strictest-append req (rule ∷ rules) r = ground (arith, strictest-append req rules r)

-- One more rule never makes the verdict of a policy that has a rule less strict, and is itself
-- obeyed.
pub decide-add_rule :
    (p : Policy) (r : Rule) (req : Request)
    → p.rules ≢ []
    → (rank (decide p req).0 ≤ rank (decide (add_rule p r) req).0)
      × (rank (r req).0 ≤ rank (decide (add_rule p r) req).0)
unfolding add_rule
decide-add_rule p r req h =
    let more : p.rules ++ r ∷ [] ≢ [] = concat-ne-nil r p.rules in
    ground (
      arith,
      decide-strictest p req h,
      decide-strictest (record { rules = p.rules ++ r ∷ [] }) req more,
      strictest-append req p.rules r,
    )

judge_from_rule :
    (rules : List Rule) (req : Request) (w : Verdict × Text) (m : Bool)
    → ((judge rules req w m).0 ≡ w)
      ⊎ ((i : ℕ) × (rule : Rule) × (get_elem? rules i ≡ some rule)
          × ((judge rules req w m).0 ≡ rule req))
unfolding judge tighten
judge_from_rule [] req w m = inl refl
judge_from_rule (rule ∷ rules) req w m =
    elim (judge_from_rule rules req (tighten w (rule req)) true) [
      | inl same ↦ elim (Bool-cases (ltb (rank w.0) (rank (rule req).0))) [
        | inl up ↦ inr (0, rule, refl, same ∙ rw up)
        | inr down ↦ inl (same ∙ rw down)
      ]
      | inr (i, other, at, same) ↦ inr (suc i, other, at, same)
    ]

-- A verdict that is not a plain yes comes, with its reason, from one of the rules.
pub decide_from_rule :
    (p : Policy) (req : Request)
    → p.rules ≢ []
    → (decide p req).0 ≢ allow
    → (i : ℕ) × (rule : Rule) × (get_elem? p.rules i ≡ some rule) × (decide p req ≡ rule req)
decide_from_rule p req h s = elim (judge_from_rule p.rules req (allow, []) false) [
  | inl same ↦ absurd (s (cc (decide_nonempty p req h, same)))
  | inr (i, rule, at, same) ↦ (i, rule, at, decide_nonempty p req h ∙ same)
]
